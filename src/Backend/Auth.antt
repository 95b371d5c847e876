-- ===== src/Backend/Auth.antt =====
-- auth.py: whether a token is verified, with the cache of the project's keys and the limit on fetching
-- them again. PyJWT's header and decoding are given, and so is what the key endpoint answers. Redis
-- answers or is absent; a time is in seconds.
pub mod Keys
pub mod Accepted
pub mod Refresh
use Prim.Native.String.{◌++◌ as str_append}
use praxis_interview_os.Base.{
  ℕ, ◌+◌, ◌-◌, Bool, true, false, ◌&&◌, ◌||◌, ltb, leb, ◌==◌, List, [], ◌∷◌, Option, none, some,
  String, str_eq, is_empty, if◌then◌else◌,
}

-- A key of the JWKS, with its "kid" and "alg".
pub record Key (K : Type 0) : Type 0 where
  pub kid : Option String
  pub alg : Option String
  pub material : K

-- ASYMMETRIC_ALGORITHMS and SYMMETRIC_ALGORITHMS.
abbrev pub asymmetric_algorithms : List String
asymmetric_algorithms = "RS256" ∷ "RS384" ∷ "RS512" ∷ "ES256" ∷ "ES384" ∷ "PS256" ∷ "EdDSA" ∷ []

abbrev pub symmetric_algorithms : List String
symmetric_algorithms = "HS256" ∷ []

-- `alg in algorithms`, where a header without "alg" gives None.
unfoldable pub is_listed : String → List String → Bool
is_listed alg [] = false
is_listed alg (a ∷ as_) = if str_eq alg a then true else is_listed alg as_

-- Whether a setting is there and not empty.
unfoldable pub is_set : Option String → Bool
is_set none = false
is_set (some v) = if str_eq v "" then false else true

unfoldable pub url_issuer : Option String → Option String
url_issuer none = none
url_issuer (some url) = some (str_append url "/auth/v1")

-- Settings.jwt_issuer, of JWT_ISSUER and SUPABASE_URL.
unfoldable pub expected_issuer : Option String → Option String → Option String
unfolding is_set url_issuer
expected_issuer issuer supabase_url =
    if is_set issuer
    then issuer
    else (if is_set supabase_url then url_issuer supabase_url else none)

pub record Header : Type 0 where
  pub alg : Option String
  pub kid : Option String

-- What `_decode` gives jwt.decode besides the token and the key.
pub record DecodeOptions : Type 0 where
  pub algorithms : List String
  pub audience : String
  pub issuer : Option String
  pub leeway : ℕ
  pub require : List String

-- jwt.decode: claims with their "sub", ExpiredSignatureError, or another error.
pub data Decoded (C : Type 0) : Type 0 where
  claims : C → Decoded C
  expired : Decoded C
  rejected : String → Decoded C

-- PyJWK(jwk, algorithm=alg).key, or the name of the error.
pub data PublicKey (K : Type 0) : Type 0 where
  public_key : K → PublicKey K
  unusable : String → PublicKey K

-- PyJWT: a token's header if it can be read, PyJWK, and decode.
pub record Jwt (T K C : Type 0) : Type 0 where
  pub is_wellformed : T → Bool
  pub get_unverified_header : T → Option Header
  pub jwk_key : K → String → PublicKey K
  pub decode : T → K → DecodeOptions → Decoded C
  pub subject : C → String

pub record Settings (K C : Type 0) : Type 0 where
  pub jwt_audience : String
  pub jwt_issuer : Option String
  pub jwt_leeway : ℕ
  pub dev_bypass : Option C
  pub verifier_configured : Bool
  pub jwt_secret : Option K
  pub supabase_url : Option String
  pub jwks_cache_ttl : ℕ
  pub refresh_cooldown : ℕ

-- A cached key set: in the process, or under a key of Redis with its TTL.
pub record Cached (K : Type 0) : Type 0 where
  pub value : List (Key K)
  pub expires_at : ℕ

-- The module's variables, Redis, and when the endpoint was asked because of an unknown "kid".
pub record State (K : Type 0) : Type 0 where
  pub memory : Option (Cached K)
  pub last_forced_refresh : ℕ
  pub redis : Option (Cached K)
  pub lock_until : ℕ
  pub forced : List ℕ

pub data Answer (C : Type 0) : Type 0 where
  accepted : C → Answer C
  auth_error : String → Answer C
  provider_unavailable : Answer C

-- `key_alg and key_alg != alg`.
unfoldable pub is_alg_mismatch : Option String → String → Bool
is_alg_mismatch none alg = false
is_alg_mismatch (some a) alg = if str_eq a "" then false else (if str_eq a alg then false else true)

module _ {K : Type 0} where
  -- A cached key set that is not over.
  unfoldable pub fresh : ℕ → Option (Cached K) → Option (List (Key K))
  fresh now none = none
  fresh now (some c) = if ltb now c.expires_at then some c.value else none

  -- _cache_get: Redis first, when there is one.
  unfoldable pub cache_get : Bool → ℕ → State K → Option (List (Key K))
  unfolding fresh
  cache_get has_redis now s = elim (if has_redis then fresh now s.redis else none) [
    | some v ↦ some v
    | none ↦ fresh now s.memory
  ]

  -- _cache_set.
  unfoldable pub cache_set : Bool → ℕ → ℕ → List (Key K) → State K → State K
  cache_set has_redis ttl now jwks s =
      let c : Cached K = record { value = jwks; expires_at = now + ttl } in
      record s { memory = some c; redis = if has_redis then some c else s.redis }

  -- _may_force_refresh: SET NX EX in Redis, or the process's own clock.
  unfoldable pub may_force_refresh : Bool → ℕ → ℕ → State K → State K × Bool
  may_force_refresh has_redis cooldown now s =
      if cooldown == 0
      then (s, true)
      else (if has_redis
          then (if ltb now s.lock_until
              then (s, false)
              else (record s { lock_until = now + cooldown }, true))
          else (if leb cooldown (now - s.last_forced_refresh)
              then (record s { last_forced_refresh = now }, true)
              else (s, false)))

  -- _find_key.
  unfoldable pub has_kid : String → Key K → Bool
  has_kid kid k = elim (k.kid) [ none ↦ false | some v ↦ str_eq v kid ]

  unfoldable pub find_key : Option String → List (Key K) → Option (Key K)
  unfolding has_kid
  find_key kid [] = none
  find_key kid (k ∷ ks) =
      let rest = find_key kid ks in
      elim kid [
        | none ↦ rest
        | some v ↦ if str_eq v "" then rest else (if has_kid v k then some k else rest)
      ]

module _ {T K C : Type 0} (jwt : Jwt T K C) (settings : Settings K C)
    (fetched : Option (List (Key K))) where
  -- _decode's options.
  unfoldable pub decode_options : String → DecodeOptions
  decode_options alg = record {
    algorithms = alg ∷ [];
    audience = settings.jwt_audience;
    issuer = expected_issuer settings.jwt_issuer settings.supabase_url;
    leeway = settings.jwt_leeway;
    require = "exp" ∷ "iat" ∷ "sub" ∷ [];
  }

  -- What remains after a key is found: _decode, and the checks around it.
  unfoldable pub decode : T → K → String → Answer C
  unfolding decode_options
  decode token key alg = elim (jwt.decode token key (decode_options alg)) [
    | expired ↦ auth_error "expired"
    | rejected e ↦ auth_error e
    | claims c ↦ if str_eq (jwt.subject c) "" then auth_error "missing_sub" else accepted c
  ]

  unfoldable pub check_key : T → String → Option (Key K) → Answer C
  unfolding decode is_alg_mismatch
  check_key token alg none = auth_error "unknown_kid"
  check_key token alg (some k) =
      if is_alg_mismatch k.alg alg
      then auth_error "alg_mismatch"
      else elim (jwt.jwk_key k.material alg) [
        | unusable e ↦ auth_error e
        | public_key key ↦ decode token key alg
      ]

  -- get_jwks: `none` is AuthProviderUnavailable from _fetch_jwks.
  unfoldable pub get_jwks : Bool → Bool → ℕ → State K → State K × Option (List (Key K))
  unfolding cache_get cache_set
  get_jwks has_redis force_refresh now s =
      elim (if force_refresh then none else cache_get has_redis now s) [
        | some v ↦ (s, some v)
        | none ↦ elim fetched [
          | none ↦ (s, none)
          | some v ↦ (cache_set has_redis settings.jwks_cache_ttl now v s, some v)
        ]
      ]

  -- The second look for an unknown key, when it is allowed.
  unfoldable pub refetch :
      Bool → ℕ → T → String → Option String → State K → Bool → State K × Answer C
  unfolding get_jwks find_key check_key
  refetch has_redis now token alg kid t false = (t, auth_error "unknown_kid")
  refetch has_redis now token alg kid t true =
      let (u, found) = get_jwks has_redis true now (record t { forced = now ∷ t.forced }) in
      (
        u,
        elim found [
          | none ↦ provider_unavailable
          | some jwks ↦ check_key token alg (find_key kid jwks)
        ],
      )

  unfoldable pub refresh : Bool → ℕ → T → String → Option String → State K → State K × Answer C
  unfolding may_force_refresh refetch
  refresh has_redis now token alg kid s =
      let (t, allowed) = may_force_refresh has_redis settings.refresh_cooldown now s in
      refetch has_redis now token alg kid t allowed

  unfoldable pub verify_asymmetric :
      Bool → ℕ → T → String → Option String → State K → State K × Answer C
  unfolding get_jwks find_key check_key refresh
  verify_asymmetric has_redis now token alg kid s =
      let (t, found) = get_jwks has_redis false now s in
      elim found [
        | none ↦ (t, provider_unavailable)
        | some jwks ↦ elim (find_key kid jwks) [
          | some k ↦ (t, check_key token alg (some k))
          | none ↦ refresh has_redis now token alg kid t
        ]
      ]

  -- The tests on the header's "alg".
  unfoldable pub verify_alg : Bool → ℕ → T → String → Option String → State K → State K × Answer C
  unfolding is_listed is_set decode verify_asymmetric
  verify_alg has_redis now token alg kid s =
      if is_listed alg symmetric_algorithms
      then elim (settings.jwt_secret) [
        | none ↦ (s, auth_error "hs256_not_configured")
        | some secret ↦ (s, decode token secret alg)
      ]
      else (if is_listed alg asymmetric_algorithms
          then (if is_set settings.supabase_url
              then verify_asymmetric has_redis now token alg kid s
              else (s, auth_error "jwks_not_configured"))
          else (s, auth_error "unsupported_alg"))

  unfoldable pub verify_header : Bool → ℕ → T → Header → State K → State K × Answer C
  unfolding verify_alg
  verify_header has_redis now token h s = elim (h.alg) [
    | none ↦ (s, auth_error "unsupported_alg")
    | some alg ↦ verify_alg has_redis now token alg h.kid s
  ]

  -- verify_jwt.
  unfoldable pub verify_jwt : Bool → ℕ → T → State K → State K × Answer C
  unfolding verify_header
  verify_jwt has_redis now token s = elim (settings.dev_bypass) [
    | some c ↦ (s, accepted c)
    | none ↦
        if settings.verifier_configured
        then (if jwt.is_wellformed token
            then elim (jwt.get_unverified_header token) [
              | none ↦ (s, auth_error "malformed_header")
              | some h ↦ verify_header has_redis now token h s
            ]
            else (s, auth_error "malformed"))
        else (s, provider_unavailable)
  ]
