-- ===== src/Gateway/Retrieval/Scores.antt =====
-- What the loops of the fusion count: each chunk once, with its ranks in both lists.
use praxis_interview_os.Base.{
  ℕ, suc, ◌≡◌, refl, sym, ap, ◌∙◌, Bool, true, false, ◌||◌, ◌==◌, List, [], ◌∷◌, Option, none, some,
  All, any, if◌then◌else◌, arith, inl, inr, Bool-cases,
}
use praxis_interview_os.Gateway.Retrieval.{
  Candidate, Score, no_score, add_rank, Entry, count_rank, count_ranks,
}

abbrev pub add_ranked : Option ℕ → Score → Score
add_ranked none s = s
add_ranked (some r) s = add_rank r s

-- The scores after a chunk has been counted.
abbrev scored : ℕ → ℕ → (ℕ → Score) → ℕ → Score
scored id rank f i = if id == i then add_rank rank (f i) else f i

scored_other : (id rank i : ℕ) (f : ℕ → Score) → (id == i) ≡ false → scored id rank f i ≡ f i
scored_other id rank i f h = rw h refl

scored_self :
    (id rank i : ℕ) (f : ℕ → Score) → (id == i) ≡ true → scored id rank f i ≡ add_rank rank (f i)
scored_self id rank i f h = rw h refl

or_false : (a b : Bool) → (a || b) ≡ false → (a ≡ false) × (b ≡ false)
or_false false b h = (refl, h)
or_false true b h = absurd (ground arith)

eq_refl : (n : ℕ) → (n == n) ≡ true
eq_refl n = ground arith

eq_symm : (n m : ℕ) (b : Bool) → (n == m) ≡ b → (m == n) ≡ b
eq_symm n m true h = ground arith
eq_symm n m false h = ground arith

module _ {A : Type 0} where
  -- Where a list ranks a chunk, counting from the rank of its first one.
  abbrev pub rank_in : ℕ → ℕ → List (Candidate A) → Option ℕ
  rank_in rank id [] = none
  rank_in rank id (c ∷ cs) =
      let later = rank_in (suc rank) id cs in if c.id == id then some rank else later

  -- No chunk twice.
  abbrev pub IsDistinct : List (Candidate A) → Type 0
  IsDistinct [] = Unit
  IsDistinct (c ∷ cs) = All (λ d. (c.id == d.id) ≡ false) cs × IsDistinct cs

  abbrev pub HasScores : (ℕ → Score) → List (Entry A) → Type 0
  HasScores f es = All (λ (e : Entry A). e.score ≡ f e.chunk.id) es

  abbrev pub counted : ℕ → List (Entry A) → Bool
  counted id es = any (λ e. e.chunk.id == id) es

  abbrev Unlike : ℕ → List (Entry A) → Type 0
  Unlike id es = All (λ (e : Entry A). (id == e.chunk.id) ≡ false) es

  -- No entry twice.
  abbrev pub IsSingle : List (Entry A) → Type 0
  IsSingle [] = Unit
  IsSingle (e ∷ es) = Unlike e.chunk.id es × IsSingle es

  Unlike-scored :
      (id rank : ℕ) (f : ℕ → Score) (es : List (Entry A))
      → Unlike id es
      → HasScores f es
      → HasScores (scored id rank f) es
  Unlike-scored id rank f [] u h = tt
  Unlike-scored id rank f (e ∷ es) u h =
      (h.0 ∙ sym (scored_other id rank e.chunk.id f u.0), Unlike-scored id rank f es u.1 h.1)

  eq-Unlike : (n m : ℕ) (es : List (Entry A)) → (n == m) ≡ true → Unlike n es → Unlike m es
  eq-Unlike n m [] h u = tt
  eq-Unlike n m (e ∷ es) h u = (ground arith, eq-Unlike n m es h u.1)

  count_rank-Unlike :
      (id rank : ℕ) (c : Candidate A) (es : List (Entry A))
      → (id == c.id) ≡ false
      → Unlike id es
      → Unlike id (count_rank c rank es)
  unfolding count_rank
  count_rank-Unlike id rank c [] h u = (h, tt)
  count_rank-Unlike id rank c (e ∷ es) h u = elim (Bool-cases (e.chunk.id == c.id)) [
    | inl b ↦ rw (b, count_rank) u
    | inr b ↦ rw (b, count_rank) (u.0, count_rank-Unlike id rank c es h u.1)
  ]

  count_rank-IsSingle :
      (c : Candidate A) (rank : ℕ) (es : List (Entry A))
      → IsSingle es
      → IsSingle (count_rank c rank es)
  unfolding count_rank
  count_rank-IsSingle c rank [] h = (tt, tt)
  count_rank-IsSingle c rank (e ∷ es) h = elim (Bool-cases (e.chunk.id == c.id)) [
    | inl b ↦ rw (b, count_rank) h
    | inr b ↦
        rw (b, count_rank)
          (count_rank-Unlike e.chunk.id rank c es b h.0, count_rank-IsSingle c rank es h.1)
  ]

  count_rank-HasScores :
      (c : Candidate A) (rank : ℕ) (f : ℕ → Score) (es : List (Entry A))
      → IsSingle es
      → HasScores f es
      → (counted c.id es ≡ false → f c.id ≡ no_score)
      → HasScores (scored c.id rank f) (count_rank c rank es)
  unfolding count_rank
  count_rank-HasScores c rank f [] one h new =
      (sym (scored_self c.id rank c.id f (eq_refl c.id) ∙ ap (add_rank rank) (new refl)), tt)
  count_rank-HasScores c rank f (e ∷ es) one h new = elim (Bool-cases (e.chunk.id == c.id)) [
    | inl b ↦
        rw (b, count_rank)
          (
            ap (add_rank rank) h.0
                ∙ sym (scored_self c.id rank e.chunk.id f (eq_symm e.chunk.id c.id true b)),
            Unlike-scored c.id rank f es (eq-Unlike e.chunk.id c.id es b one.0) h.1,
          )
    | inr b ↦
        rw (b, count_rank)
          (
            h.0 ∙ sym (scored_other c.id rank e.chunk.id f (eq_symm e.chunk.id c.id false b)),
            count_rank-HasScores c rank f es one.1 h.1 (λ g. new (rw b g)),
          )
  ]

  count_rank_counted :
      (id rank : ℕ) (c : Candidate A) (es : List (Entry A))
      → counted id (count_rank c rank es) ≡ false
      → ((c.id == id) ≡ false) × (counted id es ≡ false)
  unfolding count_rank
  count_rank_counted id rank c [] h = (ground (arith, h), refl)
  count_rank_counted id rank c (e ∷ es) h = elim (Bool-cases (e.chunk.id == c.id)) [
    | inl b ↦ let g : counted id (e ∷ es) ≡ false = rw (b, count_rank) at h in ground (arith, g)
    | inr b ↦
        let g : (e.chunk.id == id || counted id (count_rank c rank es)) ≡ false =
          rw (b, count_rank) at h in
        let (x, y) = or_false (e.chunk.id == id) (counted id (count_rank c rank es)) g in
        let (u, v) = count_rank_counted id rank c es y in (u, rw x v)
  ]

  HasScores-cong :
      (f g : ℕ → Score) (es : List (Entry A))
      → ((i : ℕ) → f i ≡ g i)
      → HasScores f es
      → HasScores g es
  HasScores-cong f g [] e h = tt
  HasScores-cong f g (x ∷ xs) e h = (h.0 ∙ e x.chunk.id, HasScores-cong f g xs e h.1)

  rank_missing :
      (c : Candidate A) (rank i : ℕ) (cs : List (Candidate A))
      → (c.id == i) ≡ true
      → All (λ (d : Candidate A). (c.id == d.id) ≡ false) cs
      → rank_in rank i cs ≡ none
  rank_missing c rank i [] e h = refl
  rank_missing c rank i (d ∷ ds) e h =
      let other : (d.id == i) ≡ false = ground (arith, e, h.0) in
      rw other (rank_missing c (suc rank) i ds e h.1)

  ranked_cons :
      (c : Candidate A) (rank i : ℕ) (cs : List (Candidate A)) (f : ℕ → Score)
      → All (λ (d : Candidate A). (c.id == d.id) ≡ false) cs
      → add_ranked (rank_in (suc rank) i cs) (scored c.id rank f i)
        ≡ add_ranked (rank_in rank i (c ∷ cs)) (f i)
  ranked_cons c rank i cs f h = elim (Bool-cases (c.id == i)) [
    | inl b ↦ rw b (rw (rank_missing c (suc rank) i cs b h) refl)
    | inr b ↦ rw b refl
  ]

  -- The loop over a list adds the rank in the list to the score of each chunk.
  count_ranks_scores :
      (rank : ℕ) (cs : List (Candidate A)) (f : ℕ → Score) (es : List (Entry A))
      → IsDistinct cs
      → IsSingle es
      → HasScores f es
      → ((i : ℕ) → counted i es ≡ false → f i ≡ no_score)
      → IsSingle (count_ranks rank cs es)
        × HasScores (λ i. add_ranked (rank_in rank i cs) (f i)) (count_ranks rank cs es)
        × ((i : ℕ)
            → counted i (count_ranks rank cs es) ≡ false
            → add_ranked (rank_in rank i cs) (f i) ≡ no_score)
  unfolding count_ranks
  count_ranks_scores rank [] f es d one h new = (one, h, new)
  count_ranks_scores rank (c ∷ cs) f es d one h new =
      let (a, b, n) =
        count_ranks_scores (suc rank) cs (scored c.id rank f) (count_rank c rank es) d.1
          (count_rank-IsSingle c rank es one) (count_rank-HasScores c rank f es one h (new c.id))
          (λ i g.
            let (u, v) = count_rank_counted i rank c es g in
            scored_other c.id rank i f u ∙ new i v) in
      (
        a,
        HasScores-cong (λ i. add_ranked (rank_in (suc rank) i cs) (scored c.id rank f i))
            (λ i. add_ranked (rank_in rank i (c ∷ cs)) (f i))
            (count_ranks (suc rank) cs (count_rank c rank es)) (λ i. ranked_cons c rank i cs f d.0)
            b,
        λ i g. sym (ranked_cons c rank i cs f d.0) ∙ n i g,
      )

  -- The score of a chunk: the sum of its parts in both lists.
  abbrev pub fused_score : List (Candidate A) → List (Candidate A) → ℕ → Score
  fused_score vec ft i = add_ranked (rank_in 1 i ft) (add_ranked (rank_in 1 i vec) no_score)

  pub counted_scores :
      (vec ft : List (Candidate A))
      → IsDistinct vec
      → IsDistinct ft
      → IsSingle (count_ranks 1 ft (count_ranks 1 vec []))
        × HasScores (fused_score vec ft) (count_ranks 1 ft (count_ranks 1 vec []))
  counted_scores vec ft u v =
      let (a, b, n) = count_ranks_scores 1 vec (λ i. no_score) [] u tt tt (λ i g. refl) in
      let (c, d, m) =
        count_ranks_scores 1 ft (λ i. add_ranked (rank_in 1 i vec) no_score) (count_ranks 1 vec [])
          v a b n in
      (c, d)
