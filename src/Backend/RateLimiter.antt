-- ===== src/Backend/RateLimiter.antt =====
-- rate_limiter.py, class RateLimitMiddleware: requests per minute and client. Decoding a token is
-- jwt's, and its answer, the `sub` claim if there is one, is an input.
pub mod Window
use Prim.Native.String.{◌++◌ as str_append}
use text.Mathlib.Text.{starts_with}
use praxis_interview_os.Base.{
  ℕ, ◌+◌, ◌/◌, Bool, true, false, not, List, [], ◌∷◌, Option, none, some, String, ltb,
  if◌then◌else◌,
}
use praxis_interview_os.Redis.{Redis, rate_limit}

-- ROUTE_LIMITS: requests per minute; the burst is not read.
abbrev pub route_limits : List (String × ℕ)
route_limits =
    ("/api/v1/auth/signup", 5)
    ∷ ("/api/v1/resumes", 10)
    ∷ ("/api/v1/jobs/analyze", 10)
    ∷ ("/api/v1/sessions", 20)
    ∷ ("/api/v1/interview-engines", 20)
    ∷ ("/api/v1/prepare-me", 15)
    ∷ ("/api/v1/preparation", 20)
    ∷ ("/api/v1/exports", 5)
    ∷ ("/api/v1/admin", 30)
    ∷ ("/api/v1/health", 120)
    ∷ []

-- The loop over ROUTE_LIMITS: the first prefix that fits.
unfoldable pub limit_among : List (String × ℕ) → String → ℕ
limit_among [] path = 60
limit_among ((prefix, rpm) ∷ rest) path =
    let later = limit_among rest path in if starts_with path prefix then rpm else later

unfoldable pub limit_rpm : String → ℕ
unfolding limit_among
limit_rpm path = limit_among route_limits path

unfoldable pub identifier : Option String → String → String
identifier none client_ip = client_ip
identifier (some sub) client_ip = str_append sub (str_append ":" client_ip)

module _ (r : Redis) where
  open r use {Store, counter, incr, expire}

  -- The pipeline of INCR and EXPIRE at the time `now` in milliseconds, and whether the request goes on.
  unfoldable pub count_request : String → ℕ → ℕ → Store → Store × Bool
  count_request id limit now s =
      let key = rate_limit id (now / 60_000) in
      let v = incr now key 1 s in (expire now key 120_000 v, not (ltb limit (counter now key v)))

  -- dispatch: without the setting or without Redis every request goes on.
  unfoldable pub dispatch : Bool → Bool → Option String → String → String → ℕ → Store → Store × Bool
  unfolding count_request identifier limit_rpm
  dispatch enabled has_redis sub client_ip path now s =
      if not enabled
      then (s, true)
      else (if not has_redis
          then (s, true)
          else count_request (identifier sub client_ip) (limit_rpm path) now s)
