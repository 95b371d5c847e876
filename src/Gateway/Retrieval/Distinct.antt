-- ===== src/Gateway/Retrieval/Distinct.antt =====
-- Filtering, sorting and cutting a table keep its chunks distinct.
use praxis_interview_os.Base.{
  ℕ, zero, suc, ◌≡◌, Bool, false, ◌==◌, List, [], ◌∷◌, take, All-take, filter, All, arith, inl, inr,
  Bool-cases, insert_by, sort_by, sort_by-All,
}
use praxis_interview_os.Gateway.Retrieval.{Candidate}
use praxis_interview_os.Gateway.Retrieval.Scores.{IsDistinct}

module _ {A : Type 0} where
  pub All-filter :
      (p : Candidate A → Bool) (P : Candidate A → Type 0) (xs : List (Candidate A))
      → All P xs
      → All P (filter p xs)
  All-filter p P [] h = tt
  All-filter p P (x ∷ xs) h = elim (Bool-cases (p x)) [
    | inl b ↦ rw b (h.0, All-filter p P xs h.1)
    | inr b ↦ rw b (All-filter p P xs h.1)
  ]

  abbrev Unlike : Candidate A → Candidate A → Type 0
  Unlike c d = (c.id == d.id) ≡ false

  pub filter-IsDistinct :
      (p : Candidate A → Bool) (xs : List (Candidate A)) → IsDistinct xs → IsDistinct (filter p xs)
  filter-IsDistinct p [] h = tt
  filter-IsDistinct p (x ∷ xs) h = elim (Bool-cases (p x)) [
    | inl b ↦ rw b (All-filter p (Unlike x) xs h.0, filter-IsDistinct p xs h.1)
    | inr b ↦ rw b (filter-IsDistinct p xs h.1)
  ]

  pub take-IsDistinct : (n : ℕ) (xs : List (Candidate A)) → IsDistinct xs → IsDistinct (take n xs)
  take-IsDistinct zero xs h = tt
  take-IsDistinct (suc n) [] h = tt
  take-IsDistinct (suc n) (x ∷ xs) h = (All-take (Unlike x) n xs h.0, take-IsDistinct n xs h.1)

  insert-Unlike :
      (before : Candidate A → Candidate A → Bool) (c x : Candidate A) (ys : List (Candidate A))
      → Unlike c x
      → All (Unlike c) ys
      → All (Unlike c) (insert_by before x ys)
  unfolding insert_by
  insert-Unlike before c x [] p h = (p, tt)
  insert-Unlike before c x (y ∷ ys) p h = elim (Bool-cases (before y x)) [
    | inl e ↦ rw (e, insert_by) (h.0, insert-Unlike before c x ys p h.1)
    | inr e ↦ rw (e, insert_by) (p, h)
  ]

  Unlike-symm : (c d : Candidate A) → Unlike c d → Unlike d c
  Unlike-symm c d h = ground arith

  insert-IsDistinct :
      (before : Candidate A → Candidate A → Bool) (x : Candidate A) (ys : List (Candidate A))
      → All (Unlike x) ys
      → IsDistinct ys
      → IsDistinct (insert_by before x ys)
  unfolding insert_by
  insert-IsDistinct before x [] p h = (tt, tt)
  insert-IsDistinct before x (y ∷ ys) p h = elim (Bool-cases (before y x)) [
    | inl e ↦
        rw (e, insert_by)
          (
            insert-Unlike before y x ys (Unlike-symm x y p.0) h.0,
            insert-IsDistinct before x ys p.1 h.1,
          )
    | inr e ↦ rw (e, insert_by) (p, h)
  ]

  pub sort-IsDistinct :
      (before : Candidate A → Candidate A → Bool) (xs : List (Candidate A))
      → IsDistinct xs
      → IsDistinct (sort_by before xs)
  unfolding sort_by
  sort-IsDistinct before [] h = tt
  sort-IsDistinct before (x ∷ xs) h =
      insert-IsDistinct before x (sort_by before xs) (sort_by-All (Unlike x) before xs h.0)
        (sort-IsDistinct before xs h.1)
