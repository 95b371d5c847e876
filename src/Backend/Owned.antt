-- ===== src/Backend/Owned.antt =====
-- repositories/owned.py: reading and changing the rows of one candidate. An id that is not a UUID is
-- none; the `extra` conditions are not modelled. A new row's id and time are given by the caller's
-- surroundings.
pub mod Isolation
use praxis_interview_os.Base.{
  ℕ, Bool, true, false, not, ◌&&◌, List, [], ◌∷◌, Option, none, some, String, ◌==◌, any, filter,
  if◌then◌else◌,
}
use praxis_interview_os.Backend.Pagination.{Row, Texts, PageResult, list_owned}

module _ {A : Type 0} where
  -- _owned_filter.
  abbrev pub is_owned : ℕ → ℕ → Row A → Bool
  is_owned id owner x = x.id == id && x.candidate_id == owner

  unfoldable pub find : ℕ → ℕ → List (Row A) → Option (Row A)
  find id owner [] = none
  find id owner (x ∷ xs) = if is_owned id owner x then some x else find id owner xs

  -- get_owned.
  unfoldable pub get_owned : Option ℕ → Option ℕ → List (Row A) → Option (Row A)
  unfolding find
  get_owned none owner rows = none
  get_owned (some id) none rows = none
  get_owned (some id) (some owner) rows = find id owner rows

  -- create_owned.
  unfoldable pub create_owned : ℕ → ℕ → ℕ → A → List (Row A) → List (Row A) × Row A
  create_owned id now owner value rows =
      let x : Row A = record { id = id; candidate_id = owner; created_at = now; value = value } in
      (x ∷ rows, x)

  -- The UPDATE statement, with the change that its values make.
  unfoldable pub update_rows : ℕ → ℕ → (A → A) → List (Row A) → List (Row A)
  update_rows id owner change [] = []
  update_rows id owner change (x ∷ xs) =
      (if is_owned id owner x then record x { value = change x.value } else x)
      ∷ update_rows id owner change xs

  -- update_owned: `none` are no values, for which no statement is run.
  unfoldable pub update_owned :
      Option ℕ → Option ℕ → Option (A → A) → List (Row A) → List (Row A) × Option (Row A)
  unfolding update_rows find
  update_owned none owner values rows = (rows, none)
  update_owned (some id) none values rows = (rows, none)
  update_owned (some id) (some owner) none rows = (rows, find id owner rows)
  update_owned (some id) (some owner) (some change) rows =
      let v = update_rows id owner change rows in
      if any (is_owned id owner) rows then (v, find id owner v) else (rows, none)

  -- delete_owned.
  unfoldable pub delete_owned : Option ℕ → Option ℕ → List (Row A) → List (Row A) × Bool
  delete_owned none owner rows = (rows, false)
  delete_owned (some id) none rows = (rows, false)
  delete_owned (some id) (some owner) rows =
      (filter (λ x. not (is_owned id owner x)) rows, any (is_owned id owner) rows)
