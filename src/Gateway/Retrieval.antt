-- ===== src/Gateway/Retrieval.antt =====
-- retrieval.py: the search for a candidate's chunks by meaning and by words, and the fusion of the two
-- results. What the database computes for a query stands with each chunk: its distance, whether its
-- words match and how well, and whether it repeats a claim that is not verified. Scores are exact
-- fractions, where the code has floats.
pub mod Scores
pub mod Agreement
pub mod Distinct
pub mod Isolation
use praxis_interview_os.Base.{
  ℕ, suc, ◌+◌, ◌*◌, Bool, true, false, not, ◌&&◌, ◌||◌, ltb, ◌==◌, List, [], ◌∷◌, Option, none,
  some, take, filter, map, sort_by, if◌then◌else◌,
}

-- A row of document_chunks with its document, as a query sees it.
pub record Candidate (A : Type 0) : Type 0 where
  pub id : ℕ
  pub owner : ℕ
  pub kind : ℕ
  pub content : A
  pub distance : ℕ
  pub matches : Bool
  pub rank_score : ℕ
  pub has_unverified : Bool

-- A numerator and a denominator.
abbrev pub Score : Type 0
Score = ℕ × ℕ

-- `0.0`, and `+= 1.0 / (RANK_CONSTANT + rank)`.
abbrev pub rank_constant : ℕ
rank_constant = 60

abbrev pub no_score : Score
no_score = (0, 1)

unfoldable pub add_rank : ℕ → Score → Score
add_rank rank (n, d) = (n * (rank_constant + rank) + d, d * (rank_constant + rank))

abbrev pub higher : Score → Score → Bool
higher (n, d) (m, e) = ltb (m * d) (n * e)

-- An entry of `chunk_map`, and a result with its score and rank.
pub record Entry (A : Type 0) : Type 0 where
  pub chunk : Candidate A
  pub score : Score

pub record ScoredChunk (A : Type 0) : Type 0 where
  pub chunk : Candidate A
  pub score : Score
  pub rank : ℕ

module _ {A : Type 0} where
  -- The WHERE clauses that both searches share: the owner, the kind of document, and, with
  -- `boost_verified`, no claim that is not verified.
  unfoldable pub is_visible : ℕ → Option ℕ → Bool → Candidate A → Bool
  is_visible owner kind boost c =
      c.owner == owner
      && (elim kind [ none ↦ true | some k ↦ c.kind == k ])
      && (if boost then not c.has_unverified else true)

  unfoldable pub vector_search : ℕ → ℕ → Option ℕ → Bool → List (Candidate A) → List (Candidate A)
  unfolding is_visible
  vector_search owner k kind boost table =
      take k
        (sort_by (λ c d. ltb c.distance d.distance) (filter (is_visible owner kind boost) table))

  unfoldable pub fulltext_search : ℕ → ℕ → Option ℕ → Bool → List (Candidate A) → List (Candidate A)
  unfolding is_visible
  fulltext_search owner k kind boost table = take k (
      sort_by (λ c d. ltb d.rank_score c.rank_score)
        (filter (λ c. is_visible owner kind boost c && c.matches) table))

  -- `chunk_map` keeps the order in which its chunks came.
  unfoldable pub count_rank : Candidate A → ℕ → List (Entry A) → List (Entry A)
  unfolding add_rank
  count_rank c rank [] = (record { chunk = c; score = add_rank rank no_score }) ∷ []
  count_rank c rank (e ∷ es) =
      let later = count_rank c rank es in
      if e.chunk.id == c.id then record e { score = add_rank rank e.score } ∷ es else e ∷ later

  -- The loop over one list, from the rank of its first chunk.
  unfoldable pub count_ranks : ℕ → List (Candidate A) → List (Entry A) → List (Entry A)
  unfolding count_rank
  count_ranks rank [] es = es
  count_ranks rank (c ∷ cs) es = count_ranks (suc rank) cs (count_rank c rank es)

  -- `fused.sort(key=..., reverse=True)`, which keeps the order of equal scores.
  unfoldable pub by_score : List (Entry A) → List (Entry A)
  by_score es = sort_by (λ x y. higher x.score y.score) es

  unfoldable pub numbered : ℕ → List (Entry A) → List (ScoredChunk A)
  numbered i [] = []
  numbered i (e ∷ es) =
      (record { chunk = e.chunk; score = e.score; rank = i }) ∷ numbered (suc i) es

  -- The fusion of the two results, as far as it is sorted, and hybrid_search.
  unfoldable pub fuse : List (Candidate A) → List (Candidate A) → List (Entry A)
  unfolding count_ranks by_score
  fuse vec ft = by_score (count_ranks 1 ft (count_ranks 1 vec []))

  unfoldable pub hybrid_search : ℕ → ℕ → Option ℕ → Bool → List (Candidate A) → List (ScoredChunk A)
  unfolding vector_search fulltext_search fuse numbered
  hybrid_search owner k kind boost table =
      let vec = vector_search owner (k * 2) kind boost table in
      let ft = fulltext_search owner (k * 2) kind boost table in numbered 1 (take k (fuse vec ft))
