-- ===== src/Gateway/Chunking.antt =====
-- chunking.py, chunk_text, from the paragraphs or sentences on: how units of text are put together to
-- overlapping chunks. Splitting the text is done by regular expressions and is not modelled; a unit
-- may be of any type, and a chunk is the list of the units that are joined by blank lines. The number
-- of tokens of a unit is the answer of tiktoken's encoding, which is not part of the repository.
pub mod Coverage
use praxis_interview_os.Base.{
  ℕ, suc, ◌+◌, ◌*◌, Bool, true, false, not, ◌&&◌, List, [], ◌∷◌, ◌++◌, reverse, map, Option, none,
  some, ltb, leb, ◌==◌, length, drop, is_empty, sum, if◌then◌else◌,
}

module _ {U : Type 0} (tokens : U → ℕ) (target_tokens overlap_tokens : ℕ) where
  abbrev pub count : List U → ℕ
  count us = sum (map tokens us)

  -- The loop over `reversed(current_chunk_units)`, with `overlap_count` and `overlap_units`.
  unfoldable pub overlap_back : List U → ℕ → List U → List U
  overlap_back [] n acc = acc
  overlap_back (u ∷ us) n acc =
      let more = overlap_back us (n + tokens u) (u ∷ acc) in
      if leb (n + tokens u) overlap_tokens then more else acc

  -- The units with which the next chunk starts: never all of those of the last one.
  unfoldable pub carry : List U → List U
  unfolding overlap_back
  carry current =
      let overlap = overlap_back (reverse current) 0 [] in
      if length overlap == length current then drop 1 overlap else overlap

  -- One iteration of the `while` finalizes the chunk, or takes the next unit.
  abbrev pub overflows : U → List U → ℕ → Bool
  overflows u current n = ltb target_tokens (n + tokens u) && not (is_empty current)

  abbrev pub finalize : List U → Option (List (List U)) → Option (List (List U))
  finalize current none = none
  finalize current (some chunks) = some (current ∷ chunks)

  -- The `while` on fuel, with `units[i:]`, `current_chunk_units` and `current_chunk_tokens`; `none` is
  -- out of fuel.
  unfoldable pub assemble : ℕ → List U → List U → ℕ → Option (List (List U))
  unfolding carry
  assemble ℕ.zero us current n = none
  assemble (suc fuel) [] current n = some (if is_empty current then [] else current ∷ [])
  assemble (suc fuel) (u ∷ us) current n = elim (overflows u current n) [
    | true ↦ finalize current (assemble fuel (u ∷ us) (carry current) (count (carry current)))
    | false ↦ assemble fuel us (current ++ u ∷ []) (n + tokens u)
  ]

  -- chunk_text, of the units.
  unfoldable pub chunk_units : List U → Option (List (List U))
  unfolding assemble
  chunk_units us = assemble (2 * length us + 1) us [] 0
