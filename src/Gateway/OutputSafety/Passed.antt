-- ===== src/Gateway/OutputSafety/Passed.antt =====
-- What an answer that passes holds at all its places.
use mathlib.Core.Bool.{false≢true, true≢false}
use praxis_interview_os.Base.{
  ℕ, zero, suc, ◌+◌, ◌≤◌, ◌≡◌, refl, subst, true, false, List, [], ◌∷◌, String, inl, inr,
  Bool-cases, arith, ltb,
}
use praxis_interview_os.Gateway.OutputSafety.{
  Violation, is_error, SafetyReport, new_report, add, add_all, text_violations,
  validate_text_output, Json, null, boolean, number, text, items, object, Items, nil, item, Fields,
  end, field, max_depth, check_values, check_items, check_fields, lookup, is_given, check_required,
  missing_required_field,
}

-- A value stands at a depth in a value, in the items of a list or the fields of an object.
mutual
  pub data At : Json → ℕ → Json → Type 0 where
    here : {j v : Json} → j ≡ v → At j zero v
    in_items : {xs : Items} {n : ℕ} {v : Json} → AtItem xs n v → At (items xs) (suc n) v
    in_object : {fs : Fields} {n : ℕ} {v : Json} → AtField fs n v → At (object fs) (suc n) v

  pub data AtItem : Items → ℕ → Json → Type 0 where
    head_item : {x : Json} {xs : Items} {n : ℕ} {v : Json} → At x n v → AtItem (item x xs) n v
    tail_item : {x : Json} {xs : Items} {n : ℕ} {v : Json} → AtItem xs n v → AtItem (item x xs) n v

  pub data AtField : Fields → ℕ → Json → Type 0 where
    head_field :
        {k : String} {x : Json} {fs : Fields} {n : ℕ} {v : Json}
        → At x n v
        → AtField (field k x fs) n v
    tail_field :
        {k : String} {x : Json} {fs : Fields} {n : ℕ} {v : Json}
        → AtField fs n v
        → AtField (field k x fs) n v

abbrev pub Passes : SafetyReport → Type 0
Passes r = r.passed ≡ true

pub add-Passes :
    (v : Violation) (r : SafetyReport) → Passes (add v r) → Passes r × (is_error v ≡ false)
unfolding add
add-Passes v r h = elim (Bool-cases (is_error v)) [
  | inl e ↦ absurd (false≢true (rw e at h))
  | inr e ↦ (rw e at h, e)
]

add_all-Passes : (vs : List Violation) (r : SafetyReport) → Passes (add_all vs r) → Passes r
unfolding add_all
add_all-Passes [] r h = h
add_all-Passes (v ∷ vs) r h = (add-Passes v r (add_all-Passes vs (add v r) h)).0

error_free : (v : Violation) (s : SafetyReport) → Passes s → is_error v ≡ false → Passes (add v s)
unfolding add
error_free v s ok e = rw e ok

-- A text passes on its own when it passes after others.
add_all-alone :
    (vs : List Violation) (r s : SafetyReport)
    → Passes s
    → Passes (add_all vs r)
    → Passes (add_all vs s)
unfolding add_all
add_all-alone [] r s ok h = ok
add_all-alone (v ∷ vs) r s ok h =
    add_all-alone vs (add v r) (add v s)
      (error_free v s ok (add-Passes v r (add_all-Passes vs (add v r) h)).1) h

-- A report that passes has passed before.
mutual
  unfolding check_values

  pub values-Passes : (d : ℕ) (j : Json) (r : SafetyReport) → Passes (check_values d j r) → Passes r
  values-Passes d (text s) r h = elim (Bool-cases (ltb max_depth d)) [
    | inl e ↦ rw e at h
    | inr e ↦ add_all-Passes (text_violations s) r (rw e at h)
  ]
  values-Passes d (items xs) r h = elim (Bool-cases (ltb max_depth d)) [
    | inl e ↦ rw e at h
    | inr e ↦ items-Passes (suc d) xs r (rw e at h)
  ]
  values-Passes d (object fs) r h = elim (Bool-cases (ltb max_depth d)) [
    | inl e ↦ rw e at h
    | inr e ↦ fields-Passes (suc d) fs r (rw e at h)
  ]
  values-Passes d null r h = h
  values-Passes d (boolean b) r h = h
  values-Passes d (number n m) r h = h

  items-Passes : (d : ℕ) (xs : Items) (r : SafetyReport) → Passes (check_items d xs r) → Passes r
  items-Passes d nil r h = h
  items-Passes d (item x xs) r h = values-Passes d x r (items-Passes d xs (check_values d x r) h)

  pub fields-Passes :
      (d : ℕ) (fs : Fields) (r : SafetyReport) → Passes (check_fields d fs r) → Passes r
  fields-Passes d end r h = h
  fields-Passes d (field k x fs) r h =
      values-Passes d x r (fields-Passes d fs (check_values d x r) h)

shallow : (d n : ℕ) → d + n ≤ 8 → ltb max_depth d ≡ false
shallow d n h = ground arith

-- When the check of a value passes, so does the check of each text in it that is not too deep.
mutual
  unfolding check_values validate_text_output

  pub text-Passes :
      (d n : ℕ) (j : Json) (s : String) (r : SafetyReport)
      → Passes (check_values d j r)
      → At j n (text s)
      → d + n ≤ 8
      → Passes (validate_text_output s)
  text-Passes d zero j s r h (here e) b =
      let g : Passes (check_values d (text s) r) = subst (λ v. Passes (check_values d v r)) e h in
      add_all-alone (text_violations s) r new_report refl (rw (shallow d 0 b) at g)
  text-Passes d (suc n) (items xs) s r h (in_items a) b =
      item_text-Passes (suc d) n xs s r (rw (shallow d (suc n) b) at h) a (omega arith)
  text-Passes d (suc n) (object fs) s r h (in_object a) b =
      field_text-Passes (suc d) n fs s r (rw (shallow d (suc n) b) at h) a (omega arith)
  text-Passes d (suc n) null s r h a b = elim a [ ]
  text-Passes d (suc n) (boolean x) s r h a b = elim a [ ]
  text-Passes d (suc n) (number x m) s r h a b = elim a [ ]
  text-Passes d (suc n) (text x) s r h a b = elim a [ ]

  item_text-Passes :
      (d n : ℕ) (xs : Items) (s : String) (r : SafetyReport)
      → Passes (check_items d xs r)
      → AtItem xs n (text s)
      → d + n ≤ 8
      → Passes (validate_text_output s)
  item_text-Passes d n nil s r h a b = elim a [ ]
  item_text-Passes d n (item x xs) s r h (head_item a) b =
      text-Passes d n x s r (items-Passes d xs (check_values d x r) h) a b
  item_text-Passes d n (item x xs) s r h (tail_item a) b =
      item_text-Passes d n xs s (check_values d x r) h a b

  pub field_text-Passes :
      (d n : ℕ) (fs : Fields) (s : String) (r : SafetyReport)
      → Passes (check_fields d fs r)
      → AtField fs n (text s)
      → d + n ≤ 8
      → Passes (validate_text_output s)
  field_text-Passes d n end s r h a b = elim a [ ]
  field_text-Passes d n (field k x fs) s r h (head_field a) b =
      text-Passes d n x s r (fields-Passes d fs (check_values d x r) h) a b
  field_text-Passes d n (field k x fs) s r h (tail_field a) b =
      field_text-Passes d n fs s (check_values d x r) h a b

abbrev pub AllGiven : Fields → List String → Type 0
AllGiven fs [] = Unit
AllGiven fs (name ∷ names) = (is_given (lookup name fs) ≡ true) × AllGiven fs names

pub required-Passes :
    (names : List String) (fs : Fields) (r : SafetyReport)
    → Passes (check_required names fs r)
    → AllGiven fs names × Passes r
unfolding check_required is_error
required-Passes [] fs r h = (tt, h)
required-Passes (name ∷ names) fs r h = elim (Bool-cases (is_given (lookup name fs))) [
  | inl e ↦ let (a, b) = required-Passes names fs r (rw (e, check_required) at h) in ((e, a), b)
  | inr e ↦
      let (a, b) =
        required-Passes names fs (add (missing_required_field name) r)
          (rw (e, check_required) at h) in
      absurd (true≢false (add-Passes (missing_required_field name) r b).1)
]
