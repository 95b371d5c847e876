-- ===== src/Gateway/Chunking/Coverage.antt =====
-- That the chunks cover the text, in order, and how large a chunk may be.
use praxis_interview_os.Base.{ℕ, ◌≤◌, ◌<◌, ◌≡◌, ◌⊎◌, List, [], ◌∷◌, ◌++◌, Option, some, length, All}
use praxis_interview_os.Gateway.Chunking.{count, carry, assemble}

-- Chunks that cover a text behind a chunk: each repeats an end of the chunk before it and adds new units,
-- and the new ones of all chunks are the text.
pub data Covers {U : Type 0} : List U → List U → List (List U) → Type 0 where
  nothing : {prev : List U} → Covers prev [] []
  chunk :
      (before old new : List U) {prev rest : List U} {chunks : List (List U)}
      → prev ≡ before ++ old
      → Covers (old ++ new) rest chunks
      → Covers prev (new ++ rest) ((old ++ new) ∷ chunks)

module _ {U : Type 0} (tokens : U → ℕ) (target_tokens overlap_tokens : ℕ) where
  -- A chunk is within the target, or it is a single unit that is larger.
  abbrev pub Fits : List U → Type 0
  Fits c = (count tokens target_tokens overlap_tokens c ≤ target_tokens) ⊎ (length c ≤ 1)

  abbrev counted : List U → ℕ
  counted = count tokens target_tokens overlap_tokens

  abbrev carried : List U → List U
  carried = carry tokens target_tokens overlap_tokens

  -- A proper suffix.
  record Smaller (c current : List U) : Type 0 where
    before : List U
    splits : current ≡ before ++ c
    fewer : length c < length current

  abbrev run : ℕ → List U → List U → ℕ → Option (List (List U))
  run = assemble tokens target_tokens overlap_tokens

  -- Chunks of a text that the loop returns.
  abbrev Good : List U → List U → Option (List (List U)) → Type 0
  Good prev text res =
      (chunks : List (List U)) × (res ≡ some chunks) × All Fits chunks × Covers prev text chunks
