-- ===== src/Gateway/Retrieval/Agreement.antt =====
-- What both searches find stands before what only one of them finds.
use native.Mathlib.Nat.{mul_comm}
use mathlib.Core.Path.{ap₂}
use praxis_interview_os.Base.{
  ℕ, zero, suc, ◌+◌, ◌*◌, ◌≤◌, ◌<◌, ◌≡◌, refl, ap, ◌∙◌, true, false, ◌==◌, List, [], ◌∷◌, ◌++◌,
  none, some, length, All, arith, ◌⊎◌, inl, inr, Bool-cases, Option-cases, sort_by-Parts,
}
use praxis_interview_os.Gateway.Retrieval.{
  Candidate, no_score, add_rank, higher, Entry, count_ranks, by_score, fuse,
}
use praxis_interview_os.Gateway.Retrieval.Scores.{
  rank_in, IsDistinct, HasScores, fused_score, counted_scores,
}

times_small : (a b n : ℕ) → b ≤ n → a * b ≤ a * n
times_small zero b n h = omega arith
times_small (suc a) b n h = omega (arith, times_small a b n h)

times_large : (a c n : ℕ) → n ≤ c → a * n ≤ a * c
times_large a c n h = times_small a n c h

sum_beats : (a b c : ℕ) → 61 ≤ a → a ≤ 120 → 61 ≤ b → b ≤ 120 → 61 ≤ c → a * b < (b + a) * c
sum_beats a b c ha ka hb kb hc = omega (
  arith,
  times_small a b 120 kb,
  times_small b a 120 ka,
  times_large (b + a) c 61 hc,
  mul_comm a b,
)

one_part : (m : ℕ) → add_rank m no_score ≡ (1, 60 + m)
unfolding add_rank
one_part m = ap₂ (λ x y. (x, y)) (omega arith) (omega arith)

two_parts :
    (i j : ℕ) → add_rank j (add_rank i no_score) ≡ ((60 + j) + (60 + i), (60 + i) * (60 + j))
unfolding add_rank
two_parts i j = ap (add_rank j) (one_part i) ∙ ap₂ (λ x y. (x, y)) (omega arith) refl

-- Two parts beat one.
two_beat_one :
    (i j m : ℕ)
    → 1 ≤ i
    → i ≤ 60
    → 1 ≤ j
    → j ≤ 60
    → 1 ≤ m
    → (higher (add_rank j (add_rank i no_score)) (add_rank m no_score) ≡ true)
      × (higher (add_rank m no_score) (add_rank j (add_rank i no_score)) ≡ false)
two_beat_one i j m hi ki hj kj hm =
    let s =
      sum_beats (60 + i) (60 + j) (60 + m) (omega arith) (omega arith) (omega arith) (omega arith)
        (omega arith) in
    rw (two_parts i j) (rw (one_part m) (beats s))
  where
    beats :
        ((60 + i) * (60 + j) < ((60 + j) + (60 + i)) * (60 + m))
        → (higher ((60 + j) + (60 + i), (60 + i) * (60 + j)) (1, 60 + m) ≡ true)
          × (higher (1, 60 + m) ((60 + j) + (60 + i), (60 + i) * (60 + j)) ≡ false)
    beats s = (ground (arith, s), ground (arith, s))

two_beat_none :
    (i j : ℕ)
    → (higher (add_rank j (add_rank i no_score)) no_score ≡ true)
      × (higher no_score (add_rank j (add_rank i no_score)) ≡ false)
two_beat_none i j = rw (two_parts i j) (ground arith, ground arith)

module _ {A : Type 0} where
  rank_in_bounds :
      (rank id r : ℕ) (xs : List (Candidate A))
      → rank_in rank id xs ≡ some r
      → (rank ≤ r) × (r < rank + length xs)
  rank_in_bounds rank id r [] h = absurd (ground arith)
  rank_in_bounds rank id r (x ∷ xs) h = elim (Bool-cases (x.id == id)) [
    | inl b ↦ let e : rank ≡ r = ground (arith, b, h) in (omega (arith, e), omega (arith, e))
    | inr b ↦
        let (p, q) = rank_in_bounds (suc rank) id r xs (ground (arith, b, h)) in
        (omega (arith, p), omega (arith, q))
  ]

  module _ (vec ft : List (Candidate A)) where
    -- Both lists rank the chunk, or one of them does not.
    abbrev pub FoundByBoth : ℕ → Type 0
    FoundByBoth id = (i : ℕ) × (j : ℕ) × (rank_in 1 id vec ≡ some i) × (rank_in 1 id ft ≡ some j)

    abbrev pub FoundByOne : ℕ → Type 0
    FoundByOne id = (rank_in 1 id vec ≡ none) ⊎ (rank_in 1 id ft ≡ none)

    abbrev High : Entry A → Type 0
    High e = FoundByBoth e.chunk.id × (e.score ≡ fused_score vec ft e.chunk.id)

    abbrev Low : Entry A → Type 0
    Low e = FoundByOne e.chunk.id × (e.score ≡ fused_score vec ft e.chunk.id)

    High-or_Low : (e : Entry A) → e.score ≡ fused_score vec ft e.chunk.id → High e ⊎ Low e
    High-or_Low e s = elim (Option-cases (rank_in 1 e.chunk.id vec)) [
      | inl a ↦ inr (inl a, s)
      | inr (i, a) ↦ elim (Option-cases (rank_in 1 e.chunk.id ft)) [
        | inl b ↦ inr (inr b, s)
        | inr (j, b) ↦ inl ((i, j, a, b), s)
      ]
    ]

    All-High_or_Low :
        (es : List (Entry A)) → HasScores (fused_score vec ft) es → All (λ e. High e ⊎ Low e) es
    All-High_or_Low [] h = tt
    All-High_or_Low (e ∷ es) h = (High-or_Low e h.0, All-High_or_Low es h.1)

    -- The score of a chunk that a list misses is that of one part, or of none.
    low_score :
        (id : ℕ)
        → FoundByOne id
        → (fused_score vec ft id ≡ no_score)
          ⊎ ((m : ℕ) × (1 ≤ m) × (fused_score vec ft id ≡ add_rank m no_score))
    low_score id (inl a) = elim (Option-cases (rank_in 1 id ft)) [
      | inl b ↦ inl (rw a (rw b refl))
      | inr (m, b) ↦ inr (m, (rank_in_bounds 1 id m ft b).0, rw a (rw b refl))
    ]
    low_score id (inr b) = elim (Option-cases (rank_in 1 id vec)) [
      | inl a ↦ inl (rw b (rw a refl))
      | inr (m, a) ↦ inr (m, (rank_in_bounds 1 id m vec a).0, rw b (rw a refl))
    ]

    High-before-Low :
        (e f : Entry A)
        → length vec ≤ 60
        → length ft ≤ 60
        → High e
        → Low f
        → (higher e.score f.score ≡ true) × (higher f.score e.score ≡ false)
    High-before-Low e f bv bf ((i, j, a, b), s) (one, t) =
        let (i1, i2) = rank_in_bounds 1 e.chunk.id i vec a in
        let (j1, j2) = rank_in_bounds 1 e.chunk.id j ft b in
        let both : e.score ≡ add_rank j (add_rank i no_score) = s ∙ (rw a (rw b refl)) in
        elim (low_score f.chunk.id one) [
          | inl z ↦ rw both (rw (t ∙ z) (two_beat_none i j))
          | inr (m, m1, z) ↦ rw both (
              rw (t ∙ z)
                (two_beat_one i j m i1 (omega (arith, i2, bv)) j1 (omega (arith, j2, bf)) m1))
        ]

    Both-High :
        (es : List (Entry A)) → All High es → All (λ (e : Entry A). FoundByBoth e.chunk.id) es
    Both-High [] h = tt
    Both-High (e ∷ es) h = (h.0.0, Both-High es h.1)

    One-Low : (es : List (Entry A)) → All Low es → All (λ (e : Entry A). FoundByOne e.chunk.id) es
    One-Low [] h = tt
    One-Low (e ∷ es) h = (h.0.0, One-Low es h.1)

    -- The fusion of two results of up to 60 chunks puts the chunks of both before the chunks of one.
    pub agreement :
        length vec ≤ 60
        → length ft ≤ 60
        → IsDistinct vec
        → IsDistinct ft
        → (hs : List (Entry A)) × (ls : List (Entry A)) × (fuse vec ft ≡ hs ++ ls)
          × All (λ (e : Entry A). FoundByBoth e.chunk.id) hs
          × All (λ (e : Entry A). FoundByOne e.chunk.id) ls
    unfolding fuse by_score
    agreement bv bf dv df =
        let (single, scores) = counted_scores vec ft dv df in
        let (hs, ls, e, a, b) =
          sort_by-Parts High Low (λ (x y : Entry A). higher x.score y.score)
            (count_ranks 1 ft (count_ranks 1 vec [])) (λ h l u v. High-before-Low h l bv bf u v)
            (All-High_or_Low (count_ranks 1 ft (count_ranks 1 vec [])) scores) in
        (hs, ls, e, Both-High hs a, One-Low ls b)
