-- ===== src/Backend/RateLimiter/Window.antt =====
-- Which requests of one client go on in a minute.
use mathlib.Core.Path.{ap₂}
use praxis_interview_os.Base.{
  ℕ, suc, ◌+◌, ◌*◌, ◌/◌, ◌≤◌, ◌<◌, ◌≡◌, ◌∙◌, Bool, true, not, List, [], ◌∷◌, Option, String, ltb,
  leb, arith,
}
use praxis_interview_os.Redis.{Redis, rate_limit}
use praxis_interview_os.Backend.RateLimiter.{limit_rpm, identifier, count_request, dispatch}

-- The n-th request of a minute is let through exactly if n is at most the limit of its own route; the
-- first argument is how many came before.
abbrev pub by_own_limit : ℕ → List (ℕ × String) → List Bool
by_own_limit n [] = []
by_own_limit n ((d, path) ∷ qs) = leb (suc n) (limit_rpm path) ∷ by_own_limit (suc n) qs

abbrev pub end_time : ℕ → List (ℕ × String) → ℕ
end_time now [] = now
end_time now ((d, path) ∷ qs) = end_time (now + d) qs

end_time_later : (now : ℕ) (qs : List (ℕ × String)) → now ≤ end_time now qs
end_time_later now [] = omega arith
end_time_later now ((d, path) ∷ qs) = ground (arith, end_time_later (now + d) qs)

in_minute : (m t : ℕ) → m * 60_000 ≤ t → t < m * 60_000 + 60_000 → t / 60_000 ≡ m
in_minute m t a b = omega arith

within_limit : (limit n : ℕ) → not (ltb limit n) ≡ leb n limit
within_limit limit n = ground arith

module _ (r : Redis) (sub : Option String) (client_ip : String) where
  open r use {Store, counter}

  abbrev id : String
  id = identifier sub client_ip

  -- The client's requests, each with the time that passes before it and its path, and which of them go on.
  abbrev pub answers : ℕ → List (ℕ × String) → Store → List Bool
  answers now [] s = []
  answers now ((d, path) ∷ qs) s =
      let (v, goes_on) = dispatch r true true sub client_ip path (now + d) s in
      goes_on ∷ answers (now + d) qs v

  counted :
      (m c now u limit : ℕ) (s : Store)
      → now / 60_000 ≡ m
      → now ≤ u
      → u < now + 120_000
      → counter now (rate_limit id m) s ≡ c
      → counter u (rate_limit id m) (count_request r id limit now s).0 ≡ suc c
  unfolding count_request
  counted m c now u limit s e a b h = rw e (
      ground (
        arith,
        r.counter-expire_self now u (rate_limit id m) 120_000 (r.incr now (rate_limit id m) 1 s) a,
        r.counter-incr_self now (rate_limit id m) 1 s,
      ))

  decided :
      (m c now limit : ℕ) (s : Store)
      → now / 60_000 ≡ m
      → counter now (rate_limit id m) s ≡ c
      → (count_request r id limit now s).1 ≡ not (ltb limit (suc c))
  unfolding count_request
  decided m c now limit s e h = rw e (ground (arith, r.counter-incr_self now (rate_limit id m) 1 s))

  -- The minute's counter stays at `c` until the minute is over.
  abbrev Counts : ℕ → ℕ → ℕ → Store → Type 0
  Counts m c now s = (u : ℕ) → now ≤ u → u < m * 60_000 + 60_000 → counter u (rate_limit id m) s ≡ c

  answers_from :
      (m c now : ℕ) (qs : List (ℕ × String)) (s : Store)
      → m * 60_000 ≤ now
      → end_time now qs < m * 60_000 + 60_000
      → Counts m c now s
      → answers now qs s ≡ by_own_limit c qs
  unfolding dispatch
  answers_from m c now [] s from until counts = λ i. []
  answers_from m c now ((d, path) ∷ qs) s from until counts =
      let t = now + d in
      let before : t < m * 60_000 + 60_000 = ground (arith, end_time_later t qs) in
      let e = in_minute m t (omega arith) before in
      let at = counts t (omega arith) before in
      let limit = limit_rpm path in
      ap₂ ◌∷◌ (decided m c t limit s e at ∙ within_limit limit (suc c)) (
        answers_from m (suc c) t qs (count_request r id limit t s).0 (omega arith) until
          (λ u a b. counted m c t u limit s e a (omega arith) at))

  -- Of the requests that a client makes within one minute, to any routes, none having been counted
  -- before, the n-th goes on exactly if n is at most the limit of its own route: a request counts
  -- against the limits of all routes, also when it is refused. The limiter is on, and Redis answers.
  pub window_exact :
      (m now : ℕ) (qs : List (ℕ × String)) (s : Store)
      → m * 60_000 ≤ now
      → end_time now qs < m * 60_000 + 60_000
      → counter now (rate_limit id m) s ≡ 0
      → answers now qs s ≡ by_own_limit 0 qs
  window_exact m now qs s from until none_yet =
      answers_from m 0 now qs s from until
        (λ u a b. ground (arith, r.counter-le_later now u (rate_limit id m) s a))
