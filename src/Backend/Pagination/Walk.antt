-- ===== src/Backend/Pagination/Walk.antt =====
-- A client that follows the cursors sees every row of its table once.
use Prim.Native.String.{String}
use mathlib.Core.List.{Perm, append_assoc}
use praxis_interview_os.Base.{
  ℕ, zero, suc, ◌≤◌, ◌<◌, ◌≡◌, refl, sym, ap, subst, ◌∙◌, ◌⊎◌, inl, inr, Bool, false, List, [], ◌∷◌,
  ◌++◌, Option, none, some, arith, ltb, ◌==◌, Bool-cases, All, length, take, drop, filter,
  length-take, length-append, take-append-drop,
}
use praxis_interview_os.Backend.Pagination.{
  Row, Texts, Key, newer, key, page, invalid_cursor, after, last?, clamp_limit, cut_page, paginate,
  list_owned, encode_cursor, order_by, put,
}
use praxis_interview_os.Backend.Pagination.Cursors.{
  IsReadable, encode_cursor_ne, decode_cursor-encode_cursor,
}
use praxis_interview_os.Backend.Pagination.Ordered.{
  IsNewer, IsDescending, HasIds, order_by-IsDescending, order_by-perm,
}

module _ {A : Type 0} where
  older_dropped : (x y : Row A) → IsNewer x y → newer (key y) (key x) ≡ false
  older_dropped x y h = ground arith

  self_dropped : (x : Row A) → newer (key x) (key x) ≡ false
  self_dropped x = ground arith

  All-kept :
      (x : Row A) (xs : List (Row A))
      → All (IsNewer x) xs
      → filter (λ y. newer (key x) (key y)) xs ≡ xs
  All-kept x [] h = refl
  All-kept x (y ∷ ys) h = rw h.0 (ap (◌∷◌ y) (All-kept x ys h.1))

  All-last : (P : Row A → Type 0) (xs ys : List (Row A)) (x : Row A) → All P (xs ++ x ∷ ys) → P x
  All-last P [] ys x h = h.0
  All-last P (z ∷ zs) ys x h = All-last P zs ys x h.1

  -- In a descending table, what comes after a row's key is what stands behind the row.
  after_row :
      (xs ys : List (Row A)) (x : Row A)
      → IsDescending (xs ++ x ∷ ys)
      → after (some (key x)) (xs ++ x ∷ ys) ≡ ys
  unfolding after
  after_row [] ys x h = rw (self_dropped x) (All-kept x ys h.0)
  after_row (z ∷ zs) ys x h =
      rw (older_dropped z x (All-last (IsNewer z) zs ys x h.0)) (after_row zs ys x h.1)

  -- A list that is not empty, and its last element.
  last_split :
      (x : Row A) (xs : List (Row A))
      → (init : List (Row A)) × (y : Row A) × (x ∷ xs ≡ init ++ y ∷ []) × (last? (x ∷ xs) ≡ some y)
  unfolding last?
  last_split x [] = ([], x, refl, refl)
  last_split x (y ∷ ys) = let (init, z, e, l) = last_split y ys in (x ∷ init, z, ap (◌∷◌ x) e, l)

  nonempty_split :
      (xs : List (Row A))
      → 1 ≤ length xs
      → (init : List (Row A)) × (y : Row A) × (xs ≡ init ++ y ∷ []) × (last? xs ≡ some y)
  nonempty_split [] h = absurd (omega arith)
  nonempty_split (x ∷ xs) h = last_split x xs

  take-take : (n : ℕ) (xs : List (Row A)) → take n (take (suc n) xs) ≡ take n xs
  take-take zero xs = refl
  take-take (suc n) [] = refl
  take-take (suc n) (x ∷ xs) = ap (◌∷◌ x) (take-take n xs)

  take_all : (n : ℕ) (xs : List (Row A)) → length xs ≤ n → take n xs ≡ xs
  take_all zero [] h = refl
  take_all zero (x ∷ xs) h = absurd (omega arith)
  take_all (suc n) [] h = refl
  take_all (suc n) (x ∷ xs) h = ap (◌∷◌ x) (take_all n xs (omega arith))

  length-put : (x : Row A) (ys : List (Row A)) → length (put x ys) ≡ suc (length ys)
  unfolding put
  length-put x [] = refl
  length-put x (y ∷ ys) = ground (arith, length-put x ys)

  length_order : (xs : List (Row A)) → length (order_by xs) < suc (length xs)
  unfolding order_by
  length_order [] = omega arith
  length_order (x ∷ xs) = omega (arith, length-put x (order_by xs), length_order xs)

  filter-All :
      (P : Row A → Type 0) (p : Row A → Bool) (xs : List (Row A)) → All P xs → All P (filter p xs)
  filter-All P p [] h = tt
  filter-All P p (x ∷ xs) h = ground (arith, filter-All P p xs h.1)

  filter-HasIds : (p : Row A → Bool) (xs : List (Row A)) → HasIds xs → HasIds (filter p xs)
  filter-HasIds p [] h = tt
  filter-HasIds p (x ∷ xs) h =
      ground (arith, filter-All (λ y. (x.id == y.id) ≡ false) p xs h.0, filter-HasIds p xs h.1)

abbrev cursor_of : Texts → Option Key → Option String
cursor_of texts none = none
cursor_of texts (some k) = some (encode_cursor texts k)

module _ (texts : Texts) {A : Type 0} (readable : IsReadable texts) where
  paginate_at :
      (rows : List (Row A)) (k : Option Key) (limit : ℕ)
      → paginate texts rows (cursor_of texts k) limit
        ≡ cut_page texts
            (clamp_limit limit)
            (take (suc (clamp_limit limit)) (after k (order_by rows)))
  unfolding paginate
  paginate_at rows none limit = refl
  paginate_at rows (some k) limit =
      rw (encode_cursor_ne texts k readable)
        (rw (decode_cursor-encode_cursor texts k readable, paginate))

  -- A page of what is left is all of it, or its first rows with the cursor of the last of them.
  cut_page_cases :
      (n : ℕ) (rest : List (Row A))
      → 1 ≤ n
      → ((length rest ≤ n) × (cut_page texts n (take (suc n) rest) ≡ page rest none))
        ⊎ ((init : List (Row A)) × (y : Row A) × (more : List (Row A)) × (rest ≡ init ++ y ∷ more)
            × (cut_page texts n (take (suc n) rest)
                ≡ page (init ++ y ∷ []) (some (encode_cursor texts (key y)))))
  unfolding cut_page
  cut_page_cases n rest pos = elim (Bool-cases (ltb n (length (take (suc n) rest)))) [
    | inr e ↦
        let short : length rest ≤ n = ground (arith, length-take (suc n) rest) in
        inl (
          short,
          rw (e, cut_page) (ap (λ xs. page xs none) (take-take n rest ∙ take_all n rest short)),
        )
    | inl e ↦
        let full : 1 ≤ length (take n rest) =
          ground (arith, length-take (suc n) rest, length-take n rest) in
        let (init, y, split, last) = nonempty_split (take n rest) full in
        inr (
          init,
          y,
          drop n rest,
          sym (take-append-drop n rest)
              ∙ ap (λ xs. xs ++ drop n rest) split
              ∙ append_assoc init (y ∷ []) (drop n rest),
          rw (e, cut_page)
              (rw (take-take n rest)
                (rw last (ap (λ xs. page xs (some (encode_cursor texts (key y)))) split))),
        )
  ]

module _ (texts : Texts) {A : Type 0} (owner limit : ℕ) (rows : List (Row A)) where
  -- A client that asks for the first page and then follows the cursors, on fuel for the number of pages.
  abbrev pub walk : ℕ → Option String → Option (List (Row A))
  walk zero cursor = none
  walk (suc fuel) cursor = elim (list_owned texts rows (some owner) cursor limit) [
    | invalid_cursor ↦ none
    | page items none ↦ some items
    | page items (some next) ↦ elim (walk fuel (some next)) [
      | none ↦ none
      | some more ↦ some (items ++ more)
    ]
  ]

  abbrev pub owned : List (Row A)
  owned = filter (λ x. x.candidate_id == owner) rows

  clamp_pos : 1 ≤ clamp_limit limit
  unfolding clamp_limit
  clamp_pos = omega arith

  walk_rest :
      (fuel : ℕ) (k : Option Key) (seen rest : List (Row A))
      → IsReadable texts
      → IsDescending (order_by owned)
      → order_by owned ≡ seen ++ rest
      → after k (order_by owned) ≡ rest
      → length rest < fuel
      → walk fuel (cursor_of texts k) ≡ some rest
  unfolding list_owned
  walk_rest zero k seen rest readable sorted all left h = absurd (omega arith)
  walk_rest (suc fuel) k seen rest readable sorted all left h =
      let n = clamp_limit limit in
      let asked = paginate_at texts readable owned k limit in
      elim (cut_page_cases texts readable n rest clamp_pos) [
        | inl (short, e) ↦
            let last : list_owned texts rows (some owner) (cursor_of texts k) limit
                ≡ page rest none =
              asked ∙ ap (λ xs. cut_page texts n (take (suc n) xs)) left ∙ e in
            rw (last, walk)
        | inr (init, y, more, split, e) ↦
            let items = init ++ y ∷ [] in
            let next = some (encode_cursor texts (key y)) in
            let first : list_owned texts rows (some owner) (cursor_of texts k) limit
                ≡ page items next =
              asked ∙ ap (λ xs. cut_page texts n (take (suc n) xs)) left ∙ e in
            let here : order_by owned ≡ (seen ++ init) ++ y ∷ more =
              all ∙ ap (λ xs. seen ++ xs) split ∙ sym (append_assoc seen init (y ∷ more)) in
            let ih =
              walk_rest fuel (some (key y)) ((seen ++ init) ++ y ∷ []) more readable sorted
                (here ∙ sym (append_assoc (seen ++ init) (y ∷ []) more))
                (subst (λ xs. after (some (key y)) xs ≡ more) (sym here)
                  (after_row (seen ++ init) more y (subst (λ xs. IsDescending xs) here sorted)))
                (omega (arith, ap length split, length-append init (y ∷ more), h)) in
            rw (first, walk) (rw (ih, walk) (ap some (append_assoc init (y ∷ []) more ∙ sym split)))
      ]

  -- Following the cursors from the first page ends, and it shows every row of the owner once, newest
  -- first, whatever the limit is; enough fuel is one more than the number of rows. The ids of a table
  -- differ, and cursors are read back.
  pub walk_complete :
      IsReadable texts
      → HasIds rows
      → (seen : List (Row A)) × (walk (suc (length owned)) none ≡ some seen)
        × Perm seen owned
        × IsDescending seen
  unfolding after
  walk_complete readable ids =
      let sorted =
        order_by-IsDescending owned (filter-HasIds (λ x. x.candidate_id == owner) rows ids) in
      (
        order_by owned,
        walk_rest (suc (length owned)) none [] (order_by owned) readable sorted refl refl
            (length_order owned),
        order_by-perm owned,
        sorted,
      )
