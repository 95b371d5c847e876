-- ===== src/Backend/Auth/Refresh.antt =====
-- How often a token with an unknown key makes the key endpoint be asked.
use praxis_interview_os.Base.{
  ℕ, ◌+◌, ◌-◌, ◌≤◌, ◌≡◌, refl, sym, subst, Bool, true, false, List, [], ◌∷◌, Option, String, ◌⊎◌,
  inl, inr, Bool-cases, Option-cases, arith, ltb, leb, ◌==◌, All,
}
use praxis_interview_os.Backend.Auth.{
  Key, symmetric_algorithms, asymmetric_algorithms, is_listed, is_set, Header, Jwt, Settings, State,
  cache_get, cache_set, find_key, may_force_refresh, get_jwks, refetch, refresh, verify_asymmetric,
  verify_alg, verify_header, verify_jwt,
}

-- Times, the latest first, that are at least a cooldown apart.
abbrev pub IsSpaced : ℕ → List ℕ → Type 0
IsSpaced cooldown [] = Unit
IsSpaced cooldown (f ∷ fs) = All (λ g. g + cooldown ≤ f) fs × IsSpaced cooldown fs

-- The forced fetches so far, and what keeps the next one from coming too soon.
abbrev IsGuarded : Bool → ℕ → ℕ → ℕ → List ℕ → Type 0
IsGuarded true cooldown lock last forced = All (λ f. f + cooldown ≤ lock) forced
IsGuarded false cooldown lock last forced = All (λ f. f ≤ last) forced

spaced_after :
    (cooldown limit now : ℕ) (fs : List ℕ)
    → All (λ f. f + cooldown ≤ limit) fs
    → limit ≤ now
    → All (λ f. f + cooldown ≤ now) fs
spaced_after cooldown limit now [] h l = tt
spaced_after cooldown limit now (f ∷ fs) h l =
    (omega (arith, h.0), spaced_after cooldown limit now fs h.1 l)

passed_after :
    (cooldown last now : ℕ) (fs : List ℕ)
    → All (λ f. f ≤ last) fs
    → cooldown ≤ now - last
    → 1 ≤ cooldown
    → All (λ f. f + cooldown ≤ now) fs
passed_after cooldown last now [] h l p = tt
passed_after cooldown last now (f ∷ fs) h l p =
    (omega (arith, h.0), passed_after cooldown last now fs h.1 l p)

spaced_more :
    (cooldown now : ℕ) (fs : List ℕ)
    → All (λ f. f + cooldown ≤ now) fs
    → All (λ f. f + cooldown ≤ now + cooldown) fs
spaced_more cooldown now [] h = tt
spaced_more cooldown now (f ∷ fs) h = (omega (arith, h.0), spaced_more cooldown now fs h.1)

weaker_guard :
    (cooldown now : ℕ) (fs : List ℕ) → All (λ f. f + cooldown ≤ now) fs → All (λ f. f ≤ now) fs
weaker_guard cooldown now [] h = tt
weaker_guard cooldown now (f ∷ fs) h = (omega (arith, h.0), weaker_guard cooldown now fs h.1)

module _ {K : Type 0} where
  abbrev IsLimited : Bool → ℕ → State K → Type 0
  IsLimited has_redis cooldown s =
      IsGuarded has_redis cooldown s.lock_until s.last_forced_refresh s.forced
      × IsSpaced cooldown s.forced

  guard_empty :
      (has_redis : Bool) (cooldown : ℕ) (s : State K)
      → s.forced ≡ []
      → IsGuarded has_redis cooldown s.lock_until s.last_forced_refresh s.forced
  guard_empty true cooldown s h = rw h tt
  guard_empty false cooldown s h = rw h tt

  -- A forced fetch is refused, or it comes a cooldown after those before it.
  force_cases :
      (has_redis : Bool) (cooldown now : ℕ) (s : State K)
      → 1 ≤ cooldown
      → IsLimited has_redis cooldown s
      → (may_force_refresh has_redis cooldown now s ≡ (s, false))
        ⊎ ((t : State K) × (may_force_refresh has_redis cooldown now s ≡ (t, true))
            × IsLimited has_redis cooldown (record t { forced = now ∷ t.forced }))
  unfolding may_force_refresh
  force_cases true cooldown now s pos (g, h) =
      let some_cooldown : (cooldown == 0) ≡ false = ground arith in
      elim (Bool-cases (ltb now s.lock_until)) [
        | inl e ↦ inl (rw (some_cooldown, may_force_refresh) (rw e refl))
        | inr e ↦
            let far = spaced_after cooldown s.lock_until now s.forced g (ground arith) in
            inr (
              record s { lock_until = now + cooldown },
              rw (some_cooldown, may_force_refresh) (rw e refl),
              ((omega arith, spaced_more cooldown now s.forced far), (far, h)),
            )
      ]
  force_cases false cooldown now s pos (g, h) =
      let some_cooldown : (cooldown == 0) ≡ false = ground arith in
      elim (Bool-cases (leb cooldown (now - s.last_forced_refresh))) [
        | inr e ↦ inl (rw (some_cooldown, may_force_refresh) (rw e refl))
        | inl e ↦
            let far =
              passed_after cooldown s.last_forced_refresh now s.forced g (ground arith) pos in
            inr (
              record s { last_forced_refresh = now },
              rw (some_cooldown, may_force_refresh) (rw e refl),
              ((omega arith, weaker_guard cooldown now s.forced far), (far, h)),
            )
      ]

module _ {T K C : Type 0} (jwt : Jwt T K C) (settings : Settings K C) (has_redis : Bool) where
  abbrev Limited : State K → Type 0
  Limited s = IsLimited has_redis settings.refresh_cooldown s

  module _ (fetched : Option (List (Key K))) (now : ℕ) where
    get_jwks-Limited :
        (force : Bool) (s : State K)
        → Limited s
        → Limited (get_jwks jwt settings fetched has_redis force now s).0
    unfolding get_jwks cache_set
    get_jwks-Limited true s h = elim (Option-cases fetched) [ inl f ↦ rw f h | inr (v, f) ↦ rw f h ]
    get_jwks-Limited false s h = elim (Option-cases (cache_get has_redis now s)) [
      | inr (v, e) ↦ rw (e, get_jwks) h
      | inl e ↦ elim (Option-cases fetched) [
        | inl f ↦ rw (e, get_jwks) (rw f h)
        | inr (v, f) ↦ rw (e, get_jwks) (rw f h)
      ]
    ]

    refresh-Limited :
        (token : T) (alg : String) (kid : Option String) (s : State K)
        → 1 ≤ settings.refresh_cooldown
        → Limited s
        → Limited (refresh jwt settings fetched has_redis now token alg kid s).0
    unfolding refresh
    refresh-Limited token alg kid s pos h =
        elim (force_cases has_redis settings.refresh_cooldown now s pos h) [
          | inl e ↦
              subst
                (λ q. Limited (refetch jwt settings fetched has_redis now token alg kid q.0 q.1).0)
                (sym e) h
          | inr (t, e, g) ↦
              subst
                (λ q. Limited (refetch jwt settings fetched has_redis now token alg kid q.0 q.1).0)
                (sym e) (get_jwks-Limited true (record t { forced = now ∷ t.forced }) g)
        ]

    asymmetric-Limited :
        (token : T) (alg : String) (kid : Option String) (s : State K)
        → 1 ≤ settings.refresh_cooldown
        → Limited s
        → Limited (verify_asymmetric jwt settings fetched has_redis now token alg kid s).0
    unfolding verify_asymmetric
    asymmetric-Limited token alg kid s pos h =
        let t = (get_jwks jwt settings fetched has_redis false now s).0 in
        let kept = get_jwks-Limited false s h in
        elim (Option-cases (get_jwks jwt settings fetched has_redis false now s).1) [
          | inl e ↦ rw (e, verify_asymmetric) kept
          | inr (jwks, e) ↦ elim (Option-cases (find_key kid jwks)) [
            | inr (k, f) ↦ rw (e, verify_asymmetric) (rw f kept)
            | inl f ↦ rw (e, verify_asymmetric) (rw f (refresh-Limited token alg kid t pos kept))
          ]
        ]

    alg-Limited :
        (token : T) (alg : String) (kid : Option String) (s : State K)
        → 1 ≤ settings.refresh_cooldown
        → Limited s
        → Limited (verify_alg jwt settings fetched has_redis now token alg kid s).0
    unfolding verify_alg
    alg-Limited token alg kid s pos h = elim (Bool-cases (is_listed alg symmetric_algorithms)) [
      | inl e ↦ elim (Option-cases (settings.jwt_secret)) [
        | inl f ↦ rw (e, verify_alg) (rw f h)
        | inr (k, f) ↦ rw (e, verify_alg) (rw f h)
      ]
      | inr e ↦ elim (Bool-cases (is_listed alg asymmetric_algorithms)) [
        | inr f ↦ rw (e, verify_alg) (rw f h)
        | inl f ↦ elim (Bool-cases (is_set settings.supabase_url)) [
          | inl g ↦ rw (e, verify_alg) (rw f (rw g (asymmetric-Limited token alg kid s pos h)))
          | inr g ↦ rw (e, verify_alg) (rw f (rw g h))
        ]
      ]
    ]

    header-Limited :
        (token : T) (x : Header) (s : State K)
        → 1 ≤ settings.refresh_cooldown
        → Limited s
        → Limited (verify_header jwt settings fetched has_redis now token x s).0
    unfolding verify_header
    header-Limited token x s pos h = elim (Option-cases (x.alg)) [
      | inl e ↦ rw (e, verify_header) h
      | inr (alg, e) ↦ rw (e, verify_header) (alg-Limited token alg x.kid s pos h)
    ]

    verify-Limited :
        (token : T) (s : State K)
        → 1 ≤ settings.refresh_cooldown
        → Limited s
        → Limited (verify_jwt jwt settings fetched has_redis now token s).0
    unfolding verify_jwt
    verify-Limited token s pos h = elim (Option-cases (settings.dev_bypass)) [
      | inr (c, e) ↦ rw (e, verify_jwt) h
      | inl e ↦ elim (Bool-cases (settings.verifier_configured)) [
        | inr f ↦ rw (e, verify_jwt) (rw f h)
        | inl f ↦ elim (Bool-cases (jwt.is_wellformed token)) [
          | inr g ↦ rw (e, verify_jwt) (rw f (rw g h))
          | inl g ↦ elim (Option-cases (jwt.get_unverified_header token)) [
            | inl i ↦ rw (e, verify_jwt) (rw f (rw g (rw i h)))
            | inr (x, i) ↦ rw (e, verify_jwt) (rw f (rw g (rw i (header-Limited token x s pos h))))
          ]
        ]
      ]
    ]

  -- Requests, each with its time, its token, and what the key endpoint answers then.
  abbrev pub verify_all : List (ℕ × T × Option (List (Key K))) → State K → State K
  verify_all [] s = s
  verify_all ((now, token, fetched) ∷ qs) s =
      verify_all qs (verify_jwt jwt settings fetched has_redis now token s).0

  all-Limited :
      (qs : List (ℕ × T × Option (List (Key K)))) (s : State K)
      → 1 ≤ settings.refresh_cooldown
      → Limited s
      → Limited (verify_all qs s)
  all-Limited [] s pos h = h
  all-Limited ((now, token, fetched) ∷ qs) s pos h =
      all-Limited qs (verify_jwt jwt settings fetched has_redis now token s).0 pos
        (verify-Limited fetched now token s pos h)

  -- However many tokens with unknown keys come, and whenever they come, the key endpoint is asked because
  -- of them at times that are a cooldown apart. Redis answers all the time, or there is none; nothing has
  -- been asked before, and the cooldown is not 0.
  pub refreshes-IsSpaced :
      (qs : List (ℕ × T × Option (List (Key K)))) (s : State K)
      → 1 ≤ settings.refresh_cooldown
      → s.forced ≡ []
      → IsSpaced settings.refresh_cooldown (verify_all qs s).forced
  refreshes-IsSpaced qs s pos none_ =
      (all-Limited qs s pos
        (guard_empty has_redis settings.refresh_cooldown s none_, rw none_ tt)).1
