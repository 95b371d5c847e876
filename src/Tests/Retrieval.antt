-- ===== src/Tests/Retrieval.antt =====
-- Runs of the search for a candidate's chunks.
use praxis_interview_os.Base.{ℕ, ◌≤◌, true, false, Bool, List, [], ◌∷◌, some, All, length}
use praxis_interview_os.Gateway.Retrieval.{Candidate, hybrid_search}
use praxis_interview_os.Gateway.Retrieval.Isolation.{search-IsVisible, IsVisible}

abbrev chunk : ℕ → ℕ → ℕ → Bool → Bool → Candidate ℕ
chunk id owner distance matches unverified = record {
  id = id;
  owner = owner;
  kind = 1;
  content = id;
  distance = distance;
  matches = matches;
  rank_score = 10;
  has_unverified = unverified;
}

-- Chunk 3 is found by both searches, 5 is another candidate's and 6 has a claim that is not verified.
abbrev table : List (Candidate ℕ)
table =
    chunk 2 7 3 false false
    ∷ chunk 3 7 9 true false
    ∷ chunk 5 8 1 true false
    ∷ chunk 6 7 1 true true
    ∷ []

search-IsVisible_example :
    (length (hybrid_search 7 4 (some 1) true table) ≤ 4)
    × All (λ r. IsVisible 7 (some 1) true r.chunk) (hybrid_search 7 4 (some 1) true table)
search-IsVisible_example = search-IsVisible 7 4 (some 1) true table
