-- ===== src/Base/Sorting.antt =====
-- A stable sort by a test that says which of two elements stands strictly before the other.
use mathlib.Core.Path.{◌≡◌, refl, sym, ap, subst}
use mathlib.Core.Bool.{Bool, true, false}
use mathlib.Core.List.{List, [], ◌∷◌, ◌++◌, Perm}
use mathlib.Core.List.Perm
use mathlib.Core.Logic.{◌⊎◌, inl, inr}
use praxis_interview_os.Base.Tests.{if◌then◌else◌, Bool-cases}
use praxis_interview_os.Base.Lists.{All}

module _ {ℓ} {A : Type ℓ} where
  unfoldable pub insert_by : (A → A → Bool) → A → List A → List A
  insert_by before x [] = x ∷ []
  insert_by before x (y ∷ ys) =
      let later = insert_by before x ys in if before y x then y ∷ later else x ∷ y ∷ ys

  unfoldable pub sort_by : (A → A → Bool) → List A → List A
  unfolding insert_by
  sort_by before [] = []
  sort_by before (x ∷ xs) = insert_by before x (sort_by before xs)

  insert_by-perm :
      (before : A → A → Bool) (x : A) (ys : List A) → Perm (insert_by before x ys) (x ∷ ys)
  unfolding insert_by
  insert_by-perm before x [] = Perm.rfl
  insert_by-perm before x (y ∷ ys) = elim (Bool-cases (before y x)) [
    | inl e ↦
        rw (e, insert_by) (Perm.trans (Perm.cons y (insert_by-perm before x ys)) (Perm.swap x y ys))
    | inr e ↦ rw (e, insert_by) Perm.rfl
  ]

  pub sort_by-perm : (before : A → A → Bool) (xs : List A) → Perm (sort_by before xs) xs
  unfolding sort_by
  sort_by-perm before [] = Perm.rfl
  sort_by-perm before (x ∷ xs) =
      Perm.trans (insert_by-perm before x (sort_by before xs))
        (Perm.cons x (sort_by-perm before xs))

  module _ {κ} (P : A → Type κ) where
    insert_by-All :
        (before : A → A → Bool) (x : A) (ys : List A)
        → P x
        → All P ys
        → All P (insert_by before x ys)
    unfolding insert_by
    insert_by-All before x [] p h = (p, tt)
    insert_by-All before x (y ∷ ys) p h = elim (Bool-cases (before y x)) [
      | inl e ↦ rw (e, insert_by) (h.0, insert_by-All before x ys p h.1)
      | inr e ↦ rw (e, insert_by) (p, h)
    ]

    pub sort_by-All : (before : A → A → Bool) (xs : List A) → All P xs → All P (sort_by before xs)
    unfolding sort_by
    sort_by-All before [] h = tt
    sort_by-All before (x ∷ xs) h =
        insert_by-All before x (sort_by before xs) h.0 (sort_by-All before xs h.1)

-- Elements of two kinds, the one before the other, are sorted in two parts.
module _ {ℓ κ} {A : Type ℓ} (High Low : A → Type κ) (before : A → A → Bool) where
  abbrev pub Parts : List A → Type (ℓ ⊔ κ)
  Parts xs = (hs : List A) × (ls : List A) × (xs ≡ hs ++ ls) × All High hs × All Low ls

  insert-High :
      (x : A) (hs ls : List A)
      → ((h l : A) → High h → Low l → before l h ≡ false)
      → High x
      → All High hs
      → All Low ls
      → Parts (insert_by before x (hs ++ ls))
  unfolding insert_by
  insert-High x [] [] apart p u v = (x ∷ [], [], refl, (p, tt), tt)
  insert-High x [] (l ∷ ls) apart p u v =
      (x ∷ [], l ∷ ls, rw (apart x l p v.0, insert_by) refl, (p, tt), v)
  insert-High x (h ∷ hs) ls apart p u v = elim (Bool-cases (before h x)) [
    | inl b ↦
        let (hs', ls', e, a, c) = insert-High x hs ls apart p u.1 v in
        (h ∷ hs', ls', rw (b, insert_by) (ap (◌∷◌ h) e), (u.0, a), c)
    | inr b ↦ (x ∷ h ∷ hs, ls, rw (b, insert_by) refl, (p, u), v)
  ]

  insert-Low :
      (x : A) (hs ls : List A)
      → ((h l : A) → High h → Low l → before h l ≡ true)
      → Low x
      → All High hs
      → All Low ls
      → Parts (insert_by before x (hs ++ ls))
  unfolding insert_by
  insert-Low x [] ls apart p u v =
      ([], insert_by before x ls, refl, tt, insert_by-All Low before x ls p v)
  insert-Low x (h ∷ hs) ls apart p u v =
      let (hs', ls', e, a, c) = insert-Low x hs ls apart p u.1 v in
      (h ∷ hs', ls', rw (apart h x u.0 p, insert_by) (ap (◌∷◌ h) e), (u.0, a), c)

  pub sort_by-Parts :
      (xs : List A)
      → ((h l : A) → High h → Low l → (before h l ≡ true) × (before l h ≡ false))
      → All (λ x. High x ⊎ Low x) xs
      → Parts (sort_by before xs)
  unfolding sort_by
  sort_by-Parts [] apart h = ([], [], refl, tt, tt)
  sort_by-Parts (x ∷ xs) apart h =
      let (hs, ls, e, a, c) = sort_by-Parts xs apart h.1 in
      subst (λ ys. Parts (insert_by before x ys)) (sym e)
        (elim (h.0) [
          | inl p ↦ insert-High x hs ls (λ h l u v. (apart h l u v).1) p a c
          | inr p ↦ insert-Low x hs ls (λ h l u v. (apart h l u v).0) p a c
        ])
