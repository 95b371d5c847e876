-- ===== src/Backend/Pagination.antt =====
-- repositories/base.py: keyset pagination over (created_at DESC, id DESC), and the lists of
-- repositories/owned.py that go through it. A table is the list of its rows in any order, a row's time
-- and its UUID are numbers with the order of the database. How Python writes and reads times and UUIDs is
-- a parameter.
pub mod Cursors
pub mod Ordered
pub mod Walk
use Prim.Native.Char.{Char, code}
use Prim.Native.String.{String, ◌++◌ as str_append}
use praxis_interview_os.Base.{
  ℕ, suc, Bool, true, false, ◌&&◌, ◌||◌, List, [], ◌∷◌, Option, none, some, ltb, leb, ◌==◌, min,
  max, length, take, filter, if◌then◌else◌, str_eq,
}

-- A row of a table with an owner; the other columns are its value.
pub record Row (A : Type 0) : Type 0 where
  pub id : ℕ
  pub candidate_id : ℕ
  pub created_at : ℕ
  pub value : A

-- `isoformat`, `fromisoformat`, `str` and `uuid.UUID`; `none` is a ValueError.
pub record Texts : Type 0 where
  pub isoformat : ℕ → String
  pub fromisoformat : String → Option ℕ
  pub uuid_text : ℕ → String
  pub uuid_read : String → Option ℕ

abbrev pub default_limit : ℕ
default_limit = 20

abbrev pub max_limit : ℕ
max_limit = 100

-- `s.rsplit("_", 1)`; `none` where the tuple cannot be unpacked.
unfoldable pub rsplit : String → Option (String × String)
rsplit String.[] = none
rsplit (String.◌∷◌ c s) = elim (rsplit s) [
  | some (a, b) ↦ some (String.◌∷◌ c a, b)
  | none ↦ if code c == 95 then some ("", s) else none
]

-- The columns of ORDER BY: `newer x y` puts x before y.
abbrev pub Key : Type 0
Key = ℕ × ℕ

abbrev pub newer : Key → Key → Bool
newer (s, i) (t, j) = ltb t s || (s == t && ltb j i)

-- `max(1, min(int(limit or DEFAULT_LIMIT), MAX_LIMIT))`.
unfoldable pub clamp_limit : ℕ → ℕ
clamp_limit limit = max 1 (min (if limit == 0 then default_limit else limit) max_limit)

-- A page, or the BadRequestError of an invalid cursor.
pub data PageResult (A : Type 0) : Type 0 where
  page : List (Row A) → Option String → PageResult A
  invalid_cursor : PageResult A

module _ (texts : Texts) where
  -- encode_cursor and decode_cursor.
  unfoldable pub encode_cursor : Key → String
  encode_cursor (t, i) = str_append (texts.isoformat t) (str_append "_" (texts.uuid_text i))

  unfoldable pub decode_cursor : String → Option Key
  unfolding rsplit
  decode_cursor cursor = elim (rsplit cursor) [
    | none ↦ none
    | some (ts, id) ↦ elim (texts.fromisoformat ts) [
      | none ↦ none
      | some t ↦ elim (texts.uuid_read id) [ none ↦ none | some i ↦ some (t, i) ]
    ]
  ]

module _ {A : Type 0} where
  abbrev pub key : Row A → Key
  key x = (x.created_at, x.id)

  -- ORDER BY created_at DESC, id DESC.
  unfoldable pub put : Row A → List (Row A) → List (Row A)
  put x [] = x ∷ []
  put x (y ∷ ys) = let later = put x ys in if newer (key x) (key y) then x ∷ y ∷ ys else y ∷ later

  unfoldable pub order_by : List (Row A) → List (Row A)
  unfolding put
  order_by [] = []
  order_by (x ∷ xs) = put x (order_by xs)

  -- The condition of the cursor.
  unfoldable pub after : Option Key → List (Row A) → List (Row A)
  after none rows = rows
  after (some k) rows = filter (λ x. newer k (key x)) rows

  unfoldable pub last? : List (Row A) → Option (Row A)
  last? [] = none
  last? (x ∷ []) = some x
  last? (x ∷ y ∷ ys) = last? (y ∷ ys)

module _ (texts : Texts) {A : Type 0} where
  -- The page of the rows that a query finds, one of which more than the limit was asked for.
  unfoldable pub cut_page : ℕ → List (Row A) → PageResult A
  unfolding last? encode_cursor
  cut_page limit rows =
      let items = take limit rows in
      page items (
        if ltb limit (length rows)
        then elim (last? items) [ none ↦ none | some x ↦ some (encode_cursor texts (key x)) ]
        else none)

  -- paginate, of a statement that selects `rows`: an empty cursor is none.
  unfoldable pub paginate : List (Row A) → Option String → ℕ → PageResult A
  unfolding order_by after decode_cursor clamp_limit cut_page
  paginate rows none limit =
      let n = clamp_limit limit in cut_page n (take (suc n) (after none (order_by rows)))
  paginate rows (some cursor) limit =
      let n = clamp_limit limit in
      if str_eq cursor ""
      then cut_page n (take (suc n) (after none (order_by rows)))
      else elim (decode_cursor texts cursor) [
        | none ↦ invalid_cursor
        | some k ↦ cut_page n (take (suc n) (after (some k) (order_by rows)))
      ]

  -- list_owned: `none` is an id that is not a UUID.
  unfoldable pub list_owned : List (Row A) → Option ℕ → Option String → ℕ → PageResult A
  unfolding paginate
  list_owned rows none cursor limit = page [] none
  list_owned rows (some owner) cursor limit =
      paginate (filter (λ x. x.candidate_id == owner) rows) cursor limit
