-- ===== src/Tests/Documents.antt =====
-- Runs of the chunker and of the context packer, over units that are their own number of tokens.
use praxis_interview_os.Base.{ℕ, ◌≡◌, refl, List, [], ◌∷◌, some}
use praxis_interview_os.Gateway.Chunking.{chunk_units}

abbrev same : ℕ → ℕ
same n = n

abbrev units : List ℕ
units = 120 ∷ 150 ∷ 40 ∷ 400 ∷ 20 ∷ []

-- The last units of a chunk are repeated in the next one while they fit into the overlap; a chunk may
-- consist of nothing else.
chunks_of_units :
    chunk_units same 300 50 units
    ≡ some ((120 ∷ 150 ∷ []) ∷ (40 ∷ []) ∷ (400 ∷ []) ∷ (20 ∷ []) ∷ [])
unfolding chunk_units
chunks_of_units = refl
