-- ===== src/Backend/Auth/Accepted.antt =====
-- Which tokens are accepted.
use praxis_interview_os.Base.{
  ℕ, ◌≡◌, refl, sym, ap, ◌∙◌, Bool, true, false, List, [], ◌∷◌, Option, none, some, String, ◌⊎◌,
  inl, inr, Bool-cases, Option-cases,
}
use praxis_interview_os.Backend.Auth.{
  Key, symmetric_algorithms, asymmetric_algorithms, is_listed, is_set, Header, Jwt, Settings, State,
  accepted, cache_get, find_key, may_force_refresh, check_key, get_jwks, refetch, refresh,
  verify_asymmetric, verify_alg, verify_header, verify_jwt,
}
use praxis_interview_os.Backend.Auth.Keys.{
  IsVerified, Verifies, not_error, not_unavailable, decode-IsVerified, IsNameIn, is_listed-IsNameIn,
  check_key-Verifies,
}

module _ {T K C : Type 0} (jwt : Jwt T K C) (settings : Settings K C)
    (fetched : Option (List (Key K))) where
  -- A key set that was cached when the request came, or that the endpoint has just given.
  abbrev pub IsKnown : Bool → ℕ → State K → List (Key K) → Type 0
  IsKnown has_redis now s jwks = (cache_get has_redis now s ≡ some jwks) ⊎ (fetched ≡ some jwks)

  get_jwks-cached :
      (has_redis : Bool) (now : ℕ) (s : State K) (v : List (Key K))
      → cache_get has_redis now s ≡ some v
      → get_jwks jwt settings fetched has_redis false now s ≡ (s, some v)
  unfolding get_jwks
  get_jwks-cached has_redis now s v e = rw (e, get_jwks) refl

  get_jwks-missing :
      (has_redis : Bool) (now : ℕ) (s : State K)
      → cache_get has_redis now s ≡ none
      → (get_jwks jwt settings fetched has_redis false now s).1 ≡ fetched
  unfolding get_jwks
  get_jwks-missing has_redis now s e = elim (Option-cases fetched) [
    | inl f ↦ rw (e, get_jwks) (rw f refl)
    | inr (v, f) ↦ rw (e, get_jwks) (rw f refl)
  ]

  get_jwks-forced :
      (has_redis : Bool) (now : ℕ) (s : State K)
      → (get_jwks jwt settings fetched has_redis true now s).1 ≡ fetched
  unfolding get_jwks
  get_jwks-forced has_redis now s = elim (Option-cases fetched) [
    | inl f ↦ rw f refl
    | inr (v, f) ↦ rw f refl
  ]

  get_jwks-IsKnown :
      (has_redis : Bool) (now : ℕ) (s : State K) (v : List (Key K))
      → (get_jwks jwt settings fetched has_redis false now s).1 ≡ some v
      → IsKnown has_redis now s v
  get_jwks-IsKnown has_redis now s v h = elim (Option-cases (cache_get has_redis now s)) [
    | inl e ↦ inr (sym (get_jwks-missing has_redis now s e) ∙ h)
    | inr (u, e) ↦ inl (e ∙ sym (ap (λ x. x.1) (get_jwks-cached has_redis now s u e)) ∙ h)
  ]

  -- The claims of a token are verified with a published key.
  abbrev pub AsymmetricVerified : Bool → ℕ → T → String → Option String → State K → C → Type 0
  AsymmetricVerified has_redis now token alg kid s c =
      (jwks : List (Key K)) × IsKnown has_redis now s jwks
      × Verifies jwt settings fetched token jwks kid alg c

  refetch-Verifies :
      (has_redis : Bool) (now : ℕ) (token : T) (alg : String) (kid : Option String) (t : State K)
      (allowed : Bool) (c : C)
      → (refetch jwt settings fetched has_redis now token alg kid t allowed).1 ≡ accepted c
      → (jwks : List (Key K)) × (fetched ≡ some jwks)
        × Verifies jwt settings fetched token jwks kid alg c
  unfolding refetch
  refetch-Verifies has_redis now token alg kid t false c h = absurd (not_error "unknown_kid" c h)
  refetch-Verifies has_redis now token alg kid t true c h =
      let got = get_jwks-forced has_redis now (record t { forced = now ∷ t.forced }) in
      elim (Option-cases fetched) [
        | inl f ↦ absurd (not_unavailable c (rw (got ∙ f) at h))
        | inr (jwks, f) ↦ (
          jwks,
          f,
          check_key-Verifies jwt settings fetched token alg kid jwks c (rw (got ∙ f) at h),
        )
      ]

  refresh-Verifies :
      (has_redis : Bool) (now : ℕ) (token : T) (alg : String) (kid : Option String) (s : State K)
      (c : C)
      → (refresh jwt settings fetched has_redis now token alg kid s).1 ≡ accepted c
      → (jwks : List (Key K)) × (fetched ≡ some jwks)
        × Verifies jwt settings fetched token jwks kid alg c
  unfolding refresh
  refresh-Verifies has_redis now token alg kid s c h =
      let (t, allowed) = may_force_refresh has_redis settings.refresh_cooldown now s in
      refetch-Verifies has_redis now token alg kid t allowed c h

  asymmetric-Verified :
      (has_redis : Bool) (now : ℕ) (token : T) (alg : String) (kid : Option String) (s : State K)
      (c : C)
      → (verify_asymmetric jwt settings fetched has_redis now token alg kid s).1 ≡ accepted c
      → AsymmetricVerified has_redis now token alg kid s c
  unfolding verify_asymmetric
  asymmetric-Verified has_redis now token alg kid s c h =
      let t = (get_jwks jwt settings fetched has_redis false now s).0 in
      elim (Option-cases (get_jwks jwt settings fetched has_redis false now s).1) [
        | inl e ↦ absurd (not_unavailable c (rw (e, verify_asymmetric) at h))
        | inr (jwks, e) ↦ elim (Option-cases (find_key kid jwks)) [
          | inr (k, f) ↦ (
            jwks,
            get_jwks-IsKnown has_redis now s jwks e,
            check_key-Verifies jwt settings fetched token alg kid jwks c (
                ap (check_key jwt settings fetched token alg) f
                ∙ (rw f at (rw (e, verify_asymmetric) at h))),
          )
          | inl f ↦
              let (more, got, v) =
                refresh-Verifies has_redis now token alg kid t c
                  (rw f at (rw (e, verify_asymmetric) at h)) in
              (more, inr got, v)
        ]
      ]

  -- What must hold of an accepted token whose header says this "alg" and "kid".
  abbrev pub AlgVerified : Bool → ℕ → T → String → Option String → State K → C → Type 0
  AlgVerified has_redis now token alg kid s c =
      ((alg ≡ "HS256")
        × ((secret : K) × (settings.jwt_secret ≡ some secret)
            × IsVerified jwt settings fetched token secret alg c))
      ⊎ (IsNameIn alg ("RS256" ∷ "RS384" ∷ "RS512" ∷ "ES256" ∷ "ES384" ∷ "PS256" ∷ "EdDSA" ∷ [])
          × AsymmetricVerified has_redis now token alg kid s c)

  abbrev pub HeaderVerified : Bool → ℕ → T → Header → State K → C → Type 0
  HeaderVerified has_redis now token h s c =
      (alg : String) × (h.alg ≡ some alg) × AlgVerified has_redis now token alg h.kid s c

  symmetric_only : (alg : String) → IsNameIn alg symmetric_algorithms → alg ≡ "HS256"
  symmetric_only alg (inl e) = e
  symmetric_only alg (inr i) = absurd i

  alg-Verified :
      (has_redis : Bool) (now : ℕ) (token : T) (alg : String) (kid : Option String) (s : State K)
      (c : C)
      → (verify_alg jwt settings fetched has_redis now token alg kid s).1 ≡ accepted c
      → AlgVerified has_redis now token alg kid s c
  unfolding verify_alg
  alg-Verified has_redis now token alg kid s c a =
      elim (Bool-cases (is_listed alg symmetric_algorithms)) [
        | inl e ↦ elim (Option-cases (settings.jwt_secret)) [
          | inl f ↦ absurd (not_error "hs256_not_configured" c (rw f at (rw (e, verify_alg) at a)))
          | inr (secret, f) ↦ inl (
            symmetric_only alg (is_listed-IsNameIn alg symmetric_algorithms e),
            (
              secret,
              f,
              decode-IsVerified jwt settings fetched token secret alg c
                  (rw f at (rw (e, verify_alg) at a)),
            ),
          )
        ]
        | inr e ↦ elim (Bool-cases (is_listed alg asymmetric_algorithms)) [
          | inr f ↦ absurd (not_error "unsupported_alg" c (rw f at (rw (e, verify_alg) at a)))
          | inl f ↦ elim (Bool-cases (is_set settings.supabase_url)) [
            | inr g ↦
                absurd
                  (not_error "jwks_not_configured" c (rw g at (rw f at (rw (e, verify_alg) at a))))
            | inl g ↦ inr (
              is_listed-IsNameIn alg asymmetric_algorithms f,
              asymmetric-Verified has_redis now token alg kid s c
                  (rw g at (rw f at (rw (e, verify_alg) at a))),
            )
          ]
        ]
      ]

  header-Verified :
      (has_redis : Bool) (now : ℕ) (token : T) (h : Header) (s : State K) (c : C)
      → (verify_header jwt settings fetched has_redis now token h s).1 ≡ accepted c
      → HeaderVerified has_redis now token h s c
  unfolding verify_header
  header-Verified has_redis now token h s c a = elim (Option-cases (h.alg)) [
    | inl e ↦ absurd (not_error "unsupported_alg" c (rw (e, verify_header) at a))
    | inr (alg, e) ↦
        (alg, e, alg-Verified has_redis now token alg h.kid s c (rw (e, verify_header) at a))
  ]

  -- A token is accepted only when its header can be read and names HS256 or one of RS256, RS384, RS512,
  -- ES256, ES384, PS256 and EdDSA, and PyJWT verifies its claims with that algorithm and no other, for the
  -- audience, issuer and leeway of the settings, and with "exp", "iat" and "sub" required: for HS256 with
  -- the project's secret, and otherwise with a key that has the header's "kid", is not meant for another
  -- algorithm, and stands in a key set that was cached or is fetched. The subject is not empty. The
  -- development bypass is off.
  pub accepted_verified :
      (has_redis : Bool) (now : ℕ) (token : T) (s : State K) (c : C)
      → settings.dev_bypass ≡ none
      → (verify_jwt jwt settings fetched has_redis now token s).1 ≡ accepted c
      → (h : Header) × (jwt.get_unverified_header token ≡ some h)
        × HeaderVerified has_redis now token h s c
  unfolding verify_jwt
  accepted_verified has_redis now token s c off a =
      let b = rw (off, verify_jwt) at a in
      elim (Bool-cases (settings.verifier_configured)) [
        | inr e ↦ absurd (not_unavailable c (rw e at b))
        | inl e ↦ elim (Bool-cases (jwt.is_wellformed token)) [
          | inr f ↦ absurd (not_error "malformed" c (rw f at (rw e at b)))
          | inl f ↦ elim (Option-cases (jwt.get_unverified_header token)) [
            | inl g ↦ absurd (not_error "malformed_header" c (rw g at (rw f at (rw e at b))))
            | inr (h, g) ↦
                (h, g, header-Verified has_redis now token h s c (rw g at (rw f at (rw e at b))))
          ]
        ]
      ]
