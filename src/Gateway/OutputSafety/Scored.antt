-- ===== src/Gateway/OutputSafety/Scored.antt =====
-- The scores of an answer that passes.
use mathlib.Core.Bool.{true≢false}
use praxis_interview_os.Base.{
  ℕ, zero, suc, ◌+◌, ◌≤◌, ◌≡◌, refl, subst, Bool, true, false, List, [], ◌∷◌, String, ◌⊎◌, inl, inr,
  Bool-cases, arith, ltb, any,
}
use praxis_interview_os.Gateway.OutputSafety.{
  is_error, SafetyReport, add, Json, null, boolean, number, text, items, object, Items, nil, item,
  Fields, end, field, max_depth, ends_with, in_range, score_ranges, check_ranges, check_scores,
  score_fields, score_value, score_items, score_out_of_range,
}
use praxis_interview_os.Gateway.OutputSafety.Passed.{Passes, add-Passes}

-- A number is at least 0 and at most a bound.
abbrev pub IsBetween : Bool → ℕ → ℕ → Type 0
IsBetween negative n hi = ((negative ≡ false) ⊎ (n ≡ 0)) × (n ≤ hi)

in_range_lem :
    (negative : Bool) (n hi : ℕ) → in_range negative n hi ≡ true → IsBetween negative n hi
unfolding in_range
in_range_lem true n hi h = (inr (ground arith), ground arith)
in_range_lem false n hi h = (inl refl, ground arith)

-- A number is within every range that its name's end asks for.
abbrev pub IsInRanges : List (List String × ℕ) → String → Bool → ℕ → Type 0
IsInRanges [] key negative n = Unit
IsInRanges ((names, hi) ∷ rs) key negative n =
    ((any (λ w. ends_with w key) names ≡ false) ⊎ IsBetween negative n hi)
    × IsInRanges rs key negative n

ranges-Passes :
    (rs : List (List String × ℕ)) (key : String) (negative : Bool) (n : ℕ) (r : SafetyReport)
    → Passes (check_ranges rs key negative n r)
    → IsInRanges rs key negative n × Passes r
unfolding check_ranges is_error
ranges-Passes [] key negative n r h = (tt, h)
ranges-Passes ((names, hi) ∷ rs) key negative n r h =
    elim (Bool-cases (any (λ w. ends_with w key) names)) [
      | inr e ↦
          let (a, b) = ranges-Passes rs key negative n r (rw (e, check_ranges) at h) in
          ((inl e, a), b)
      | inl e ↦ elim (Bool-cases (in_range negative n hi)) [
        | inl f ↦
            let (a, b) = ranges-Passes rs key negative n r (rw f at (rw (e, check_ranges) at h)) in
            ((inr (in_range_lem negative n hi f), a), b)
        | inr f ↦
            let (a, b) =
              ranges-Passes rs key negative n (add (score_out_of_range key) r)
                (rw f at (rw (e, check_ranges) at h)) in
            absurd (true≢false (add-Passes (score_out_of_range key) r b).1)
      ]
    ]

-- A number stands under a name at a depth, in an object, in the objects in it, and in those in its
-- lists.
mutual
  pub data NumberIn : Fields → ℕ → String → Bool → ℕ → Type 0 where
    this_field :
        {j : String} {v : Json} {fs : Fields} {k : String} {s : Bool} {m : ℕ}
        → j ≡ k
        → v ≡ number s m
        → NumberIn (field j v fs) zero k s m
    other_field :
        {j : String} {v : Json} {fs : Fields} {n : ℕ} {k : String} {s : Bool} {m : ℕ}
        → NumberIn fs n k s m
        → NumberIn (field j v fs) n k s m
    in_object :
        {j : String} {v : Json} {gs fs : Fields} {n : ℕ} {k : String} {s : Bool} {m : ℕ}
        → v ≡ object gs
        → NumberIn gs n k s m
        → NumberIn (field j v fs) (suc n) k s m
    in_list :
        {j : String} {v : Json} {xs : Items} {fs : Fields} {n : ℕ} {k : String} {s : Bool} {m : ℕ}
        → v ≡ items xs
        → NumberAmong xs n k s m
        → NumberIn (field j v fs) (suc n) k s m

  pub data NumberAmong : Items → ℕ → String → Bool → ℕ → Type 0 where
    this_item :
        {v : Json} {gs : Fields} {xs : Items} {n : ℕ} {k : String} {s : Bool} {m : ℕ}
        → v ≡ object gs
        → NumberIn gs n k s m
        → NumberAmong (item v xs) n k s m
    other_item :
        {v : Json} {xs : Items} {n : ℕ} {k : String} {s : Bool} {m : ℕ}
        → NumberAmong xs n k s m
        → NumberAmong (item v xs) n k s m

-- A report that passes after the scores has passed before.
mutual
  unfolding check_scores

  pub scores-Passes : (d : ℕ) (j : Json) (r : SafetyReport) → Passes (check_scores d j r) → Passes r
  scores-Passes d (object fs) r h = elim (Bool-cases (ltb max_depth d)) [
    | inl e ↦ rw e at h
    | inr e ↦ fields-Passes d fs r (rw e at h)
  ]
  scores-Passes d null r h = h
  scores-Passes d (boolean b) r h = h
  scores-Passes d (number s n) r h = h
  scores-Passes d (text s) r h = h
  scores-Passes d (items xs) r h = h

  fields-Passes : (d : ℕ) (fs : Fields) (r : SafetyReport) → Passes (score_fields d fs r) → Passes r
  fields-Passes d end r h = h
  fields-Passes d (field k v fs) r h =
      value-Passes d k v r (fields-Passes d fs (score_value d k v r) h)

  value-Passes :
      (d : ℕ) (k : String) (v : Json) (r : SafetyReport) → Passes (score_value d k v r) → Passes r
  value-Passes d k (number s n) r h = (ranges-Passes score_ranges k s n r h).1
  value-Passes d k (object fs) r h = elim (Bool-cases (ltb max_depth (suc d))) [
    | inl e ↦ rw e at h
    | inr e ↦ fields-Passes (suc d) fs r (rw e at h)
  ]
  value-Passes d k (items xs) r h = list-Passes (suc d) xs r h
  value-Passes d k null r h = h
  value-Passes d k (boolean b) r h = h
  value-Passes d k (text s) r h = h

  list-Passes : (d : ℕ) (xs : Items) (r : SafetyReport) → Passes (score_items d xs r) → Passes r
  list-Passes d nil r h = h
  list-Passes d (item x xs) r h = scores-Passes d x r (list-Passes d xs (check_scores d x r) h)

not_deep : (d n : ℕ) → d + n ≤ 8 → ltb max_depth d ≡ false
not_deep d n h = ground arith

-- When the check of the scores passes, each number that is not too deep is within its ranges.
mutual
  unfolding check_scores

  pub number-IsInRanges :
      (d n : ℕ) (fs : Fields) (k : String) (s : Bool) (m : ℕ) (r : SafetyReport)
      → Passes (score_fields d fs r)
      → NumberIn fs n k s m
      → d + n ≤ 8
      → IsInRanges score_ranges k s m
  number-IsInRanges d n end k s m r h a b = elim a [ ]
  number-IsInRanges d zero (field j v fs) k s m r h (this_field i e) b =
      let g = fields-Passes d fs (score_value d j v r) h in
      let c : Passes (check_ranges score_ranges k s m r) =
        subst (λ x. Passes (check_ranges score_ranges x s m r)) i
          (subst (λ x. Passes (score_value d j x r)) e g) in
      (ranges-Passes score_ranges k s m r c).0
  number-IsInRanges d n (field j v fs) k s m r h (other_field a) b =
      number-IsInRanges d n fs k s m (score_value d j v r) h a b
  number-IsInRanges d (suc n) (field j v fs) k s m r h (in_object {gs = gs} e a) b =
      let g = fields-Passes d fs (score_value d j v r) h in
      let c : Passes (score_value d j (object gs) r) =
        subst (λ x. Passes (score_value d j x r)) e g in
      number-IsInRanges (suc d) n gs k s m r (rw (not_deep (suc d) n (omega arith)) at c) a
        (omega arith)
  number-IsInRanges d (suc n) (field j v fs) k s m r h (in_list {xs = xs} e a) b =
      let g = fields-Passes d fs (score_value d j v r) h in
      among-IsInRanges (suc d) n xs k s m r (subst (λ x. Passes (score_value d j x r)) e g) a
        (omega arith)

  among-IsInRanges :
      (d n : ℕ) (xs : Items) (k : String) (s : Bool) (m : ℕ) (r : SafetyReport)
      → Passes (score_items d xs r)
      → NumberAmong xs n k s m
      → d + n ≤ 8
      → IsInRanges score_ranges k s m
  among-IsInRanges d n nil k s m r h a b = elim a [ ]
  among-IsInRanges d n (item v xs) k s m r h (this_item {gs = gs} e a) b =
      let g = list-Passes d xs (check_scores d v r) h in
      let c : Passes (check_scores d (object gs) r) =
        subst (λ x. Passes (check_scores d x r)) e g in
      number-IsInRanges d n gs k s m r (rw (not_deep d n b) at c) a b
  among-IsInRanges d n (item v xs) k s m r h (other_item a) b =
      among-IsInRanges d n xs k s m (check_scores d v r) h a b
