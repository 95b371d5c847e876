-- ===== src/Gateway/ContextPacker/Prefix.antt =====
-- What is packed into a context.
use praxis_interview_os.Base.{
  ℕ, ◌+◌, ◌≤◌, ◌<◌, ◌≡◌, refl, ap, subst, List, [], ◌∷◌, ◌++◌, leb, arith, Bool-cases, inl, inr,
  sum, map,
}
use praxis_interview_os.Gateway.ContextPacker.{pack_from, pack_context}

module _ {C : Type 0} (tokens : C → ℕ) where
  -- Nothing is left, or the next one would not fit.
  abbrev pub IsFull : ℕ → ℕ → List C → Type 0
  IsFull max_tokens n [] = Unit
  IsFull max_tokens n (c ∷ cs) = max_tokens < n + tokens c

  packed_from :
      (max_tokens n : ℕ) (cs : List C)
      → n ≤ max_tokens
      → let p = pack_from tokens max_tokens n cs in
        (n + sum (map tokens p) ≤ max_tokens)
        × ((rest : List C) × (cs ≡ p ++ rest) × IsFull max_tokens (n + sum (map tokens p)) rest)
  unfolding pack_from
  packed_from max_tokens n [] h = (omega arith, ([], refl, tt))
  packed_from max_tokens n (c ∷ cs) h = elim (Bool-cases (leb (n + tokens c) max_tokens)) [
    | inl e ↦
        let (within, (rest, split, full)) =
          packed_from max_tokens (n + tokens c) cs (ground arith) in
        rw e (
          omega arith,
          (rest, ap (◌∷◌ c) split, subst (λ (m : ℕ). IsFull max_tokens m rest) (omega arith) full),
        )
    | inr e ↦ rw e (omega arith, (c ∷ cs, refl, ground arith))
  ]

  -- The packed chunks are the longest prefix of the ranked chunks whose tokens stay within the budget.
  pack_longest_prefix :
      (max_tokens : ℕ) (cs : List C)
      → let p = pack_context tokens max_tokens cs in
        (sum (map tokens p) ≤ max_tokens)
        × ((rest : List C) × (cs ≡ p ++ rest) × IsFull max_tokens (sum (map tokens p)) rest)
  unfolding pack_context
  pack_longest_prefix max_tokens cs =
      let (within, (rest, split, full)) = packed_from max_tokens 0 cs (omega arith) in
      (omega arith, (rest, split, subst (λ (m : ℕ). IsFull max_tokens m rest) (omega arith) full))
