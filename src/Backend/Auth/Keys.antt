-- ===== src/Backend/Auth/Keys.antt =====
-- What a found key and the decoding of a token under it say.
use mathlib.Core.Bool.{true≢false, false≢true}
use praxis_interview_os.Base.{
  ◌≡◌, ◌≢◌, refl, ap, subst, ◌∙◌, true, false, List, [], ◌∷◌, Option, none, some, String, str_eq,
  str_eq_iff, ◌⊎◌, inl, inr, Bool-cases, Option-cases, arith,
}
use praxis_interview_os.Backend.Auth.{
  Key, DecodeOptions, PublicKey, public_key, unusable, Decoded, claims, expired, rejected, Jwt,
  Settings, accepted, auth_error, provider_unavailable, has_kid, find_key, is_alg_mismatch, decode,
  check_key, decode_options, is_listed, expected_issuer,
}

module _ {C : Type 0} where
  pub not_error : (m : String) (c : C) → auth_error m ≢ accepted c
  not_error m c e = ground arith

  pub not_unavailable : (c : C) → provider_unavailable ≢ accepted c
  not_unavailable c e = ground arith

  accepted_inj : (b c : C) → accepted b ≡ accepted c → b ≡ c
  accepted_inj b c e = ground arith

-- A name stands in a list.
abbrev pub IsNameIn : String → List String → Type 0
IsNameIn a [] = ⊥
IsNameIn a (x ∷ xs) = (a ≡ x) ⊎ IsNameIn a xs

pub is_listed-IsNameIn : (a : String) (xs : List String) → is_listed a xs ≡ true → IsNameIn a xs
unfolding is_listed
is_listed-IsNameIn a [] h = absurd (false≢true h)
is_listed-IsNameIn a (x ∷ xs) h = elim (Bool-cases (str_eq a x)) [
  | inl e ↦ inl ((str_eq_iff a x).0 e)
  | inr e ↦ inr (is_listed-IsNameIn a xs (rw (e, is_listed) at h))
]

-- A key's "alg" is missing, empty, or the given one.
abbrev pub IsFor : Option String → String → Type 0
IsFor a alg = (a ≡ none) ⊎ ((a ≡ some "") ⊎ (a ≡ some alg))

is_alg_mismatch_lem :
    (a : Option String) (alg : String) → is_alg_mismatch a alg ≡ false → IsFor a alg
unfolding is_alg_mismatch
is_alg_mismatch_lem none alg h = inl refl
is_alg_mismatch_lem (some a) alg h = elim (Bool-cases (str_eq a "")) [
  | inl e ↦ inr (inl (ap some ((str_eq_iff a "").0 e)))
  | inr e ↦ elim (Bool-cases (str_eq a alg)) [
    | inl f ↦ inr (inr (ap some ((str_eq_iff a alg).0 f)))
    | inr f ↦ absurd (true≢false (rw f at (rw (e, is_alg_mismatch) at h)))
  ]
]

module _ {K : Type 0} where
  abbrev pub IsIn : Key K → List (Key K) → Type 0
  IsIn k [] = ⊥
  IsIn k (x ∷ xs) = (x ≡ k) ⊎ IsIn k xs

  abbrev pub IsNamed : Option String → Key K → Type 0
  IsNamed none k = ⊥
  IsNamed (some v) k = k.kid ≡ some v

  has_kid_lem : (v : String) (k : Key K) → has_kid v k ≡ true → k.kid ≡ some v
  unfolding has_kid
  has_kid_lem v k h = elim (Option-cases (k.kid)) [
    | inl e ↦ absurd (false≢true (rw (e, has_kid) at h))
    | inr (a, e) ↦ e ∙ ap some ((str_eq_iff a v).0 (rw (e, has_kid) at h))
  ]

  PublicKey-cases :
      (p : PublicKey K) → ((x : String) × (p ≡ unusable x)) ⊎ ((key : K) × (p ≡ public_key key))
  PublicKey-cases (unusable x) = inl (x, refl)
  PublicKey-cases (public_key key) = inr (key, refl)

  some_inj : (x y : Key K) → some x ≡ some y → x ≡ y
  some_inj x y e = ground arith

  find_key-IsIn :
      (kid : Option String) (ks : List (Key K)) (k : Key K)
      → find_key kid ks ≡ some k
      → IsIn k ks × IsNamed kid k
  unfolding find_key
  find_key-IsIn kid [] k h = absurd (ground arith)
  find_key-IsIn none (x ∷ xs) k h = let (a, b) = find_key-IsIn none xs k h in (inr a, b)
  find_key-IsIn (some v) (x ∷ xs) k h = elim (Bool-cases (str_eq v "")) [
    | inl a ↦ let (i, n) = find_key-IsIn (some v) xs k (rw (a, find_key) at h) in (inr i, n)
    | inr a ↦ elim (Bool-cases (has_kid v x)) [
      | inl b ↦
          let e : x ≡ k = some_inj x k (rw b at (rw (a, find_key) at h)) in
          (inl e, has_kid_lem v k (subst (λ y. has_kid v y ≡ true) e b))
      | inr b ↦
          let (i, n) = find_key-IsIn (some v) xs k (rw b at (rw (a, find_key) at h)) in (inr i, n)
    ]
  ]

module _ {T K C : Type 0} (jwt : Jwt T K C) (settings : Settings K C)
    (fetched : Option (List (Key K))) where
  -- The token passes PyJWT's checks under a key, with this algorithm and no other, the audience, issuer and
  -- leeway of the settings, and its times and subject required; and the subject is not empty.
  abbrev pub IsVerified : T → K → String → C → Type 0
  IsVerified token key alg c =
      let asked : DecodeOptions = record {
        algorithms = alg ∷ [];
        audience = settings.jwt_audience;
        issuer = expected_issuer settings.jwt_issuer settings.supabase_url;
        leeway = settings.jwt_leeway;
        require = "exp" ∷ "iat" ∷ "sub" ∷ [];
      } in
      (jwt.decode token key asked ≡ claims c) × (str_eq (jwt.subject c) "" ≡ false)

  pub decode-IsVerified :
      (token : T) (key : K) (alg : String) (c : C)
      → decode jwt settings fetched token key alg ≡ accepted c
      → IsVerified token key alg c
  unfolding decode decode_options
  decode-IsVerified token key alg c h =
      go (jwt.decode token key (decode_options jwt settings fetched alg)) refl
    where
      go :
          (d : Decoded C)
          → jwt.decode token key (decode_options jwt settings fetched alg) ≡ d
          → IsVerified token key alg c
      go expired e = absurd (not_error "expired" c (rw (e, decode) at h))
      go (rejected x) e = absurd (not_error x c (rw (e, decode) at h))
      go (claims b) e = elim (Bool-cases (str_eq (jwt.subject b) "")) [
        | inl m ↦ absurd (not_error "missing_sub" c (rw m at (rw (e, decode) at h)))
        | inr m ↦
            let same : b ≡ c = accepted_inj b c (rw m at (rw (e, decode) at h)) in
            (e ∙ ap claims same, subst (λ x. str_eq (jwt.subject x) "" ≡ false) same m)
      ]

  -- A key of a key set, with the token's "kid", that is not for another algorithm.
  abbrev pub IsPublished : List (Key K) → Option String → String → K → Type 0
  IsPublished jwks kid alg key =
      (k : Key K) × IsIn k jwks
      × IsNamed kid k
      × IsFor k.alg alg
      × (jwt.jwk_key k.material alg ≡ public_key key)

  abbrev pub Verifies : T → List (Key K) → Option String → String → C → Type 0
  Verifies token jwks kid alg c =
      (key : K) × IsPublished jwks kid alg key × IsVerified token key alg c

  pub check_key-Verifies :
      (token : T) (alg : String) (kid : Option String) (jwks : List (Key K)) (c : C)
      → check_key jwt settings fetched token alg (find_key kid jwks) ≡ accepted c
      → Verifies token jwks kid alg c
  unfolding check_key
  check_key-Verifies token alg kid jwks c h = elim (Option-cases (find_key kid jwks)) [
    | inl e ↦ absurd (not_error "unknown_kid" c (rw (e, check_key) at h))
    | inr (k, e) ↦
        let (i, n) = find_key-IsIn kid jwks k e in
        elim (Bool-cases (is_alg_mismatch k.alg alg)) [
          | inl m ↦ absurd (not_error "alg_mismatch" c (rw m at (rw (e, check_key) at h)))
          | inr m ↦ elim (PublicKey-cases (jwt.jwk_key k.material alg)) [
            | inl (x, u) ↦ absurd (not_error x c (rw u at (rw m at (rw (e, check_key) at h))))
            | inr (key, u) ↦ (
              key,
              (k, i, n, is_alg_mismatch_lem k.alg alg m, u),
              decode-IsVerified token key alg c (rw u at (rw m at (rw (e, check_key) at h))),
            )
          ]
        ]
  ]
