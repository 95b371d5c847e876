-- ===== src/Backend/Owned/Isolation.antt =====
-- No candidate sees or touches another candidate's rows.
use mathlib.Core.Path.{ap₂}
use praxis_interview_os.Base.{
  ℕ, ◌≡◌, refl, sym, ap, ◌∙◌, Bool, true, false, not, List, [], ◌∷◌, Option, none, some, String,
  arith, ◌==◌, any, filter, Bool-cases, inl, inr, if◌then◌else◌,
}
use praxis_interview_os.Backend.Pagination.{Row, Texts, PageResult, paginate, list_owned}
use praxis_interview_os.Backend.Owned.{
  is_owned, find, get_owned, create_owned, update_rows, update_owned, delete_owned,
}

-- What a candidate asks of a table, through list_owned, get_owned, create_owned, update_owned and
-- delete_owned.
pub data Request (A : Type 0) : Type 0 where
  lists : Option String → ℕ → Request A
  gets : Option ℕ → Request A
  creates : ℕ → ℕ → A → Request A
  updates : Option ℕ → Option (A → A) → Request A
  deletes : Option ℕ → Request A

pub data Response (A : Type 0) : Type 0 where
  listed : PageResult A → Response A
  found : Option (Row A) → Response A
  created : Row A → Response A
  deleted : Bool → Response A

self_eq : (a : ℕ) → (a == a) ≡ true
self_eq a = ground arith

eq_of_test : (c a : ℕ) → (c == a) ≡ true → c ≡ a
eq_of_test c a h = ground arith

module _ {A : Type 0} where
  abbrev pub rows_of : ℕ → List (Row A) → List (Row A)
  rows_of a rows = filter (λ x. x.candidate_id == a) rows

  abbrev pub serve : Texts → ℕ → Request A → List (Row A) → List (Row A) × Response A
  serve texts a (lists cursor limit) rows =
      (rows, listed (list_owned texts rows (some a) cursor limit))
  serve texts a (gets id) rows = (rows, found (get_owned id (some a) rows))
  serve texts a (creates id now value) rows =
      let (v, x) = create_owned id now a value rows in (v, created x)
  serve texts a (updates id values) rows =
      let (v, x) = update_owned id (some a) values rows in (v, found x)
  serve texts a (deletes id) rows = let (v, b) = delete_owned id (some a) rows in (v, deleted b)

  -- The answers to one candidate while all candidates make requests, in any order.
  abbrev pub answers : Texts → ℕ → List (Row A) → List (ℕ × Request A) → List (Response A)
  answers texts a rows [] = []
  answers texts a rows ((c, q) ∷ qs) =
      let rest = answers texts a (serve texts c q rows).0 qs in
      if c == a then (serve texts c q rows).1 ∷ rest else rest

  -- The answers to a candidate that is alone with its rows.
  abbrev pub alone : Texts → ℕ → List (Row A) → List (Request A) → List (Response A)
  alone texts a rows [] = []
  alone texts a rows (q ∷ qs) = (serve texts a q rows).1 ∷ alone texts a (serve texts a q rows).0 qs

  abbrev pub requests_of : ℕ → List (ℕ × Request A) → List (Request A)
  requests_of a [] = []
  requests_of a ((c, q) ∷ qs) = let rest = requests_of a qs in if c == a then q ∷ rest else rest

  rows_of_idem : (a : ℕ) (rows : List (Row A)) → rows_of a (rows_of a rows) ≡ rows_of a rows
  rows_of_idem a [] = refl
  rows_of_idem a (x ∷ xs) = ground (arith, rows_of_idem a xs)

  find_local : (id a : ℕ) (rows : List (Row A)) → find id a (rows_of a rows) ≡ find id a rows
  unfolding find
  find_local id a [] = refl
  find_local id a (x ∷ xs) = ground (arith, find_local id a xs)

  any_local :
      (id a : ℕ) (rows : List (Row A))
      → any (is_owned id a) (rows_of a rows) ≡ any (is_owned id a) rows
  any_local id a [] = refl
  any_local id a (x ∷ xs) = ground (arith, any_local id a xs)

  update_local :
      (id a : ℕ) (f : A → A) (rows : List (Row A))
      → rows_of a (update_rows id a f rows) ≡ update_rows id a f (rows_of a rows)
  unfolding update_rows
  update_local id a f [] = refl
  update_local id a f (x ∷ xs) = ground (arith, update_local id a f xs)

  update_other :
      (id a b : ℕ) (f : A → A) (rows : List (Row A))
      → (a == b) ≡ false
      → rows_of b (update_rows id a f rows) ≡ rows_of b rows
  unfolding update_rows
  update_other id a b f [] d = refl
  update_other id a b f (x ∷ xs) d = ground (arith, update_other id a b f xs d)

  delete_local :
      (id a : ℕ) (rows : List (Row A))
      → rows_of a (filter (λ x. not (is_owned id a x)) rows)
        ≡ filter (λ x. not (is_owned id a x)) (rows_of a rows)
  delete_local id a [] = refl
  delete_local id a (x ∷ xs) = ground (arith, delete_local id a xs)

  delete_other :
      (id a b : ℕ) (rows : List (Row A))
      → (a == b) ≡ false
      → rows_of b (filter (λ x. not (is_owned id a x)) rows) ≡ rows_of b rows
  delete_other id a b [] d = refl
  delete_other id a b (x ∷ xs) d = ground (arith, delete_other id a b xs d)

  -- A request's answer and what it does to its candidate's rows depend on these alone.
  serve_local :
      (texts : Texts) (a : ℕ) (q : Request A) (rows : List (Row A))
      → ((serve texts a q (rows_of a rows)).1 ≡ (serve texts a q rows).1)
        × (rows_of a (serve texts a q rows).0 ≡ (serve texts a q (rows_of a rows)).0)
  unfolding list_owned get_owned create_owned update_owned delete_owned
  serve_local texts a (lists cursor limit) rows =
      (ap (λ xs. listed (paginate texts xs cursor limit)) (rows_of_idem a rows), refl)
  serve_local texts a (gets none) rows = (refl, refl)
  serve_local texts a (gets (some id)) rows = (ap found (find_local id a rows), refl)
  serve_local texts a (creates id now value) rows = (refl, rw (self_eq a) refl)
  serve_local texts a (updates none values) rows = (refl, refl)
  serve_local texts a (updates (some id) none) rows = (ap found (find_local id a rows), refl)
  serve_local texts a (updates (some id) (some f)) rows = ground (
    arith,
    any_local id a rows,
    update_local id a f rows,
    find_local id a (update_rows id a f rows),
  )
  serve_local texts a (deletes none) rows = (refl, refl)
  serve_local texts a (deletes (some id)) rows =
      (ap deleted (any_local id a rows), delete_local id a rows)

  serve_other :
      (texts : Texts) (a b : ℕ) (q : Request A) (rows : List (Row A))
      → (a == b) ≡ false
      → rows_of b (serve texts a q rows).0 ≡ rows_of b rows
  unfolding list_owned get_owned create_owned update_owned delete_owned
  serve_other texts a b (lists cursor limit) rows d = refl
  serve_other texts a b (gets id) rows d = refl
  serve_other texts a b (creates id now value) rows d = rw d
  serve_other texts a b (updates none values) rows d = refl
  serve_other texts a b (updates (some id) none) rows d = refl
  serve_other texts a b (updates (some id) (some f)) rows d =
      ground (arith, update_other id a b f rows d)
  serve_other texts a b (deletes none) rows d = refl
  serve_other texts a b (deletes (some id)) rows d = delete_other id a b rows d

  -- Whatever the candidates ask of a table, in whatever order, each is answered as if it were alone
  -- with its own rows: it sees none of the others', changes none, and finds its own as it left them.
  pub answers_isolated :
      (texts : Texts) (a : ℕ) (qs : List (ℕ × Request A)) (rows : List (Row A))
      → answers texts a rows qs ≡ alone texts a (rows_of a rows) (requests_of a qs)
  answers_isolated texts a [] rows = refl
  answers_isolated texts a ((c, q) ∷ qs) rows =
      let ih = answers_isolated texts a qs (serve texts c q rows).0 in
      elim (Bool-cases (c == a)) [
        | inl own ↦
            let (said, left) = serve_local texts a q rows in
            let e = eq_of_test c a own in
            let step : (serve texts c q rows).1 ≡ (serve texts a q (rows_of a rows)).1 =
              ap (λ d. (serve texts d q rows).1) e ∙ sym said in
            let next : rows_of a (serve texts c q rows).0 ≡ (serve texts a q (rows_of a rows)).0 =
              ap (λ d. rows_of a (serve texts d q rows).0) e ∙ left in
            rw own (ap₂ ◌∷◌ step (ih ∙ ap (λ xs. alone texts a xs (requests_of a qs)) next))
        | inr other ↦ rw other (
            ih
            ∙ ap (λ xs. alone texts a xs (requests_of a qs)) (serve_other texts c a q rows other))
      ]
