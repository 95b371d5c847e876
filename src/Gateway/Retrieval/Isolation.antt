-- ===== src/Gateway/Retrieval/Isolation.antt =====
-- What a search returns: chunks that its candidate may see, the best agreed ones first.
use praxis_interview_os.Base.{
  ℕ, suc, ◌*◌, ◌≤◌, ◌≡◌, refl, ap, Bool, true, false, ◌&&◌, ltb, ◌==◌, List, [], ◌∷◌, Option, none,
  some, ◌⊎◌, take, All-take, filter, length, length-take, All, arith, inl, inr, Bool-cases, sort_by,
  sort_by-All,
}
use praxis_interview_os.Gateway.Retrieval.{
  Candidate, Entry, ScoredChunk, higher, is_visible, vector_search, fulltext_search, count_rank,
  count_ranks, by_score, numbered, fuse, hybrid_search,
}

-- A kind that is asked for, if one is.
abbrev pub IsOfKind : Option ℕ → ℕ → Type 0
IsOfKind none kind = Unit
IsOfKind (some k) kind = kind ≡ k

module _ {A : Type 0} where
  filter-passes :
      (p : Candidate A → Bool) (xs : List (Candidate A)) → All (λ x. p x ≡ true) (filter p xs)
  filter-passes p [] = tt
  filter-passes p (x ∷ xs) = elim (Bool-cases (p x)) [
    | inl b ↦ rw b (b, filter-passes p xs)
    | inr b ↦ rw b (filter-passes p xs)
  ]

  module _ (P : Candidate A → Type 0) where
    abbrev OfChunk : Entry A → Type 0
    OfChunk e = P e.chunk

    count_rank-All :
        (c : Candidate A) (rank : ℕ) (es : List (Entry A))
        → P c
        → All OfChunk es
        → All OfChunk (count_rank c rank es)
    unfolding count_rank
    count_rank-All c rank [] p h = (p, tt)
    count_rank-All c rank (e ∷ es) p h = elim (Bool-cases (e.chunk.id == c.id)) [
      | inl b ↦ rw (b, count_rank) h
      | inr b ↦ rw (b, count_rank) (h.0, count_rank-All c rank es p h.1)
    ]

    count_ranks-All :
        (rank : ℕ) (cs : List (Candidate A)) (es : List (Entry A))
        → All P cs
        → All OfChunk es
        → All OfChunk (count_ranks rank cs es)
    unfolding count_ranks
    count_ranks-All rank [] es p h = h
    count_ranks-All rank (c ∷ cs) es p h =
        count_ranks-All (suc rank) cs (count_rank c rank es) p.1 (count_rank-All c rank es p.0 h)

    fuse-All : (vec ft : List (Candidate A)) → All P vec → All P ft → All OfChunk (fuse vec ft)
    unfolding fuse by_score
    fuse-All vec ft p q =
        sort_by-All OfChunk (λ x y. higher x.score y.score)
          (count_ranks 1 ft (count_ranks 1 vec []))
          (count_ranks-All 1 ft (count_ranks 1 vec []) q (count_ranks-All 1 vec [] p tt))

    numbered-All :
        (i : ℕ) (es : List (Entry A))
        → All OfChunk es
        → All (λ (r : ScoredChunk A). P r.chunk) (numbered i es)
    unfolding numbered
    numbered-All i [] h = tt
    numbered-All i (e ∷ es) h = (h.0, numbered-All (suc i) es h.1)

  numbered-length : (i : ℕ) (es : List (Entry A)) → length (numbered i es) ≡ length es
  unfolding numbered
  numbered-length i [] = refl
  numbered-length i (e ∷ es) = ap suc (numbered-length (suc i) es)

  -- What a search may return.
  abbrev pub IsVisible : ℕ → Option ℕ → Bool → Candidate A → Type 0
  IsVisible owner kind boost c =
      (c.owner ≡ owner) × IsOfKind kind c.kind × ((boost ≡ false) ⊎ (c.has_unverified ≡ false))

  is_visible_lem :
      (owner : ℕ) (kind : Option ℕ) (boost : Bool) (c : Candidate A)
      → is_visible owner kind boost c ≡ true
      → IsVisible owner kind boost c
  unfolding is_visible
  is_visible_lem owner none true c h = (ground arith, tt, inr (ground arith))
  is_visible_lem owner none false c h = (ground arith, tt, inl refl)
  is_visible_lem owner (some k) true c h = (ground arith, ground arith, inr (ground arith))
  is_visible_lem owner (some k) false c h = (ground arith, ground arith, inl refl)

  All-IsVisible :
      (owner : ℕ) (kind : Option ℕ) (boost : Bool) (cs : List (Candidate A))
      → All (λ c. is_visible owner kind boost c ≡ true) cs
      → All (IsVisible owner kind boost) cs
  All-IsVisible owner kind boost [] h = tt
  All-IsVisible owner kind boost (c ∷ cs) h =
      (is_visible_lem owner kind boost c h.0, All-IsVisible owner kind boost cs h.1)

  and_first :
      (p q : Candidate A → Bool) (xs : List (Candidate A))
      → All (λ x. (p x && q x) ≡ true) xs
      → All (λ x. p x ≡ true) xs
  and_first p q [] h = tt
  and_first p q (x ∷ xs) h = (ground arith, and_first p q xs h.1)

  module _ (owner k : ℕ) (kind : Option ℕ) (boost : Bool) (table : List (Candidate A)) where
    vector-IsVisible :
        All (IsVisible owner kind boost) (vector_search owner (k * 2) kind boost table)
    unfolding vector_search
    vector-IsVisible =
        let found = filter (is_visible owner kind boost) table in
        All-take (IsVisible owner kind boost) (k * 2)
          (sort_by (λ c d. ltb c.distance d.distance) found)
          (sort_by-All (IsVisible owner kind boost) (λ c d. ltb c.distance d.distance) found
            (All-IsVisible owner kind boost found
              (filter-passes (is_visible owner kind boost) table)))

    text-IsVisible :
        All (IsVisible owner kind boost) (fulltext_search owner (k * 2) kind boost table)
    unfolding fulltext_search
    text-IsVisible =
        let found = filter (λ c. is_visible owner kind boost c && c.matches) table in
        All-take (IsVisible owner kind boost) (k * 2)
          (sort_by (λ c d. ltb d.rank_score c.rank_score) found)
          (sort_by-All (IsVisible owner kind boost) (λ c d. ltb d.rank_score c.rank_score) found
            (All-IsVisible owner kind boost found (
              and_first (is_visible owner kind boost) (λ c. c.matches) found
                (filter-passes (λ c. is_visible owner kind boost c && c.matches) table))))

    -- A search returns at most k chunks, each of its candidate and of the kind that is asked for, and
    -- none with a claim that is not verified when verified ones are asked for.
    pub search-IsVisible :
        (length (hybrid_search owner k kind boost table) ≤ k)
        × All
            (λ (r : ScoredChunk A). IsVisible owner kind boost r.chunk)
            (hybrid_search owner k kind boost table)
    unfolding hybrid_search
    search-IsVisible =
        let vec = vector_search owner (k * 2) kind boost table in
        let ft = fulltext_search owner (k * 2) kind boost table in
        (
          omega (arith, numbered-length 1 (take k (fuse vec ft)), length-take k (fuse vec ft)),
          numbered-All (IsVisible owner kind boost) 1 (take k (fuse vec ft)) (
              All-take (OfChunk (IsVisible owner kind boost)) k (fuse vec ft)
                (fuse-All (IsVisible owner kind boost) vec ft vector-IsVisible text-IsVisible)),
        )
