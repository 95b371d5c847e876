-- ===== src/Backend/Pagination/Ordered.antt =====
-- ORDER BY puts the rows of a table in one strict order and loses none.
use mathlib.Core.List.{Perm}
use mathlib.Core.List.Perm
use praxis_interview_os.Base.{
  ◌≡◌, inl, inr, true, false, List, [], ◌∷◌, arith, ◌==◌, Bool-cases, All,
}
use praxis_interview_os.Backend.Pagination.{Row, newer, key, put, order_by}

module _ {A : Type 0} where
  abbrev pub IsNewer : Row A → Row A → Type 0
  IsNewer x y = newer (key x) (key y) ≡ true

  -- Newest first, no two with the same key.
  abbrev pub IsDescending : List (Row A) → Type 0
  IsDescending [] = Unit
  IsDescending (x ∷ xs) = All (IsNewer x) xs × IsDescending xs

  -- The primary key.
  abbrev pub HasIds : List (Row A) → Type 0
  HasIds [] = Unit
  HasIds (x ∷ xs) = All (λ y. (x.id == y.id) ≡ false) xs × HasIds xs

  IsNewer-trans : (x y z : Row A) → IsNewer x y → IsNewer y z → IsNewer x z
  IsNewer-trans x y z p q = ground arith

  newer_total : (x y : Row A) → (x.id == y.id) ≡ false → newer (key x) (key y) ≡ false → IsNewer y x
  newer_total x y d h = ground arith

  All-IsNewer :
      (x y : Row A) (ys : List (Row A)) → IsNewer x y → All (IsNewer y) ys → All (IsNewer x) ys
  All-IsNewer x y [] p h = tt
  All-IsNewer x y (z ∷ zs) p h = (IsNewer-trans x y z p h.0, All-IsNewer x y zs p h.1)

  put-All : (P : Row A → Type 0) (x : Row A) (ys : List (Row A)) → P x → All P ys → All P (put x ys)
  unfolding put
  put-All P x [] p h = (p, tt)
  put-All P x (y ∷ ys) p h = ground (arith, put-All P x ys p h.1)

  put-IsDescending :
      (x : Row A) (ys : List (Row A))
      → All (λ y. (x.id == y.id) ≡ false) ys
      → IsDescending ys
      → IsDescending (put x ys)
  unfolding put
  put-IsDescending x [] d h = (tt, tt)
  put-IsDescending x (y ∷ ys) d h = elim (Bool-cases (newer (key x) (key y))) [
    | inl e ↦ rw (e, put) ((e, All-IsNewer x y ys e h.0), h)
    | inr e ↦
        rw (e, put)
          (put-All (IsNewer y) x ys (newer_total x y d.0 e) h.0, put-IsDescending x ys d.1 h.1)
  ]

  put-perm : (x : Row A) (ys : List (Row A)) → Perm (put x ys) (x ∷ ys)
  unfolding put
  put-perm x [] = Perm.rfl
  put-perm x (y ∷ ys) = elim (Bool-cases (newer (key x) (key y))) [
    | inl e ↦ rw (e, put) Perm.rfl
    | inr e ↦ rw (e, put) (Perm.trans (Perm.cons y (put-perm x ys)) (Perm.swap x y ys))
  ]

  order_by-All : (P : Row A → Type 0) (xs : List (Row A)) → All P xs → All P (order_by xs)
  unfolding order_by
  order_by-All P [] h = tt
  order_by-All P (x ∷ xs) h = put-All P x (order_by xs) h.0 (order_by-All P xs h.1)

  pub order_by-IsDescending : (xs : List (Row A)) → HasIds xs → IsDescending (order_by xs)
  unfolding order_by
  order_by-IsDescending [] h = tt
  order_by-IsDescending (x ∷ xs) h =
      put-IsDescending x (order_by xs) (order_by-All (λ y. (x.id == y.id) ≡ false) xs h.0)
        (order_by-IsDescending xs h.1)

  pub order_by-perm : (xs : List (Row A)) → Perm (order_by xs) xs
  unfolding order_by
  order_by-perm [] = Perm.rfl
  order_by-perm (x ∷ xs) = Perm.trans (put-perm x (order_by xs)) (Perm.cons x (order_by-perm xs))
