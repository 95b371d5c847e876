-- ===== src/Gateway/ContextPacker.antt =====
-- context_packer.py, pack_context, over chunks that are formatted already: as many as fit, in order.
-- Whether the tokens of a text are counted by tiktoken, so that their number is a parameter.
pub mod Prefix
use praxis_interview_os.Base.{ℕ, ◌+◌, Bool, true, false, List, [], ◌∷◌, leb, if◌then◌else◌}

module _ {C : Type 0} (tokens : C → ℕ) where
  -- The loop with `current_tokens`; a chunk that does not fit ends it.
  unfoldable pub pack_from : ℕ → ℕ → List C → List C
  pack_from max_tokens n [] = []
  pack_from max_tokens n (c ∷ cs) =
      let rest = pack_from max_tokens (n + tokens c) cs in
      if leb (n + tokens c) max_tokens then c ∷ rest else []

  unfoldable pub pack_context : ℕ → List C → List C
  unfolding pack_from
  pack_context max_tokens cs = pack_from max_tokens 0 cs
