-- ===== src/Backend/Jobs/Retries.antt =====
-- A job that a worker runs again after each Retry ends, and is lost to nobody.
use praxis_interview_os.Base.{
  ℕ, zero, suc, ◌+◌, ◌-◌, ◌*◌, ◌^◌, ◌≤◌, ◌≡◌, refl, ap, ◌∙◌, true, List, ◌∷◌, Option, none, some,
  String, ltb, arith, inl, inr, Bool-cases,
}
use praxis_interview_os.Backend.Jobs.{
  Outcome, returned, permanent, raised, retried, Result, done, failed, retry, raises, Letters,
  record_dead_letter, settle, wrapper,
}

-- How often a job ran, how long it waited in between, what it left and its last result.
pub record Run (S R : Type 0) : Type 0 where
  pub tries : ℕ
  pub waited : ℕ
  pub state : S
  pub letters : Letters
  pub result : Result R

module _ {R : Type 0} where
  abbrev pub IsNoRetry : Outcome R → Type 0
  IsNoRetry (returned x) = Unit
  IsNoRetry (permanent e) = Unit
  IsNoRetry (raised e) = Unit
  IsNoRetry (retried d) = ⊥

  -- The letters that a job's end adds, in how many tries: none when it returns, one when it fails, after
  -- all its tries unless the failure is permanent.
  abbrev pub IsAccounted : ℕ → List String → Result R → ℕ → List String → Type 0
  IsAccounted max_tries before (done x) tries after = after ≡ before
  IsAccounted max_tries before (failed e) tries after = after ≡ e ∷ before
  IsAccounted max_tries before (raises e) tries after = (tries ≡ max_tries) × (after ≡ e ∷ before)
  IsAccounted max_tries before (retry defer) tries after = ⊥

  -- The outcome that a result stands for.
  abbrev pub Came : Result R → Outcome R → Type 0
  Came (done x) o = o ≡ returned x
  Came (failed e) o = o ≡ permanent e
  Came (raises e) o = o ≡ raised e
  Came (retry d) o = ⊥

letter_kept :
    (e : String) (l : Letters)
    → l.has_engine ≡ true
    → l.inserts ≡ true
    → record_dead_letter e l ≡ record l { letters = e ∷ l.letters }
unfolding record_dead_letter
letter_kept e l a b = rw a (rw b refl)

pred_suc : (k : ℕ) → k ≡ suc k - 1
pred_suc k = omega arith

pow_double : (k : ℕ) → 2 ^ suc k ≡ 2 * 2 ^ k
pow_double k = omega arith

wait_here : (waited k : ℕ) → waited + 5 * 2 ^ k ≡ waited + 5 * 2 ^ (suc k - 1)
wait_here waited k = ap (λ i. waited + 5 * 2 ^ i) (pred_suc k)

wait_more :
    (waited k tries all : ℕ)
    → all + 5 * 2 ^ suc k ≡ waited + 5 * 2 ^ (suc k - 1) + 5 * 2 ^ (tries - 1)
    → all + 5 * 2 ^ k ≡ waited + 5 * 2 ^ (tries - 1)
wait_more waited k tries all h = omega (arith, h, pow_double k, ap (λ i. 2 ^ i) (pred_suc k))

module _ {S R : Type 0} where
  -- What a worker does with a try's result: a Retry goes on, anything else ends the job.
  abbrev conclude : (ℕ → Option (Run S R)) → ℕ → ℕ → S → Letters → Result R → Option (Run S R)
  conclude again tries waited t m (retry defer) = again defer
  conclude again tries waited t m (done y) =
      some (record { tries = tries; waited = waited; state = t; letters = m; result = done y })
  conclude again tries waited t m (failed e) =
      some (record { tries = tries; waited = waited; state = t; letters = m; result = failed e })
  conclude again tries waited t m (raises e) =
      some (record { tries = tries; waited = waited; state = t; letters = m; result = raises e })

  -- A worker runs a job again after a Retry, with the next number, as arq documents it; on fuel.
  abbrev pub work : (ℕ → S → S × Outcome R) → ℕ → ℕ → ℕ → ℕ → S → Letters → Option (Run S R)
  work fn max_tries zero job_try waited s l = none
  work fn max_tries (suc fuel) job_try waited s l =
      let ((t, m), x) = wrapper fn max_tries job_try (s, l) in
      conclude (λ defer. work fn max_tries fuel (suc job_try) (waited + defer) t m) job_try waited t
        m x

  -- Only the wrapper asks for another try.
  abbrev pub NeverRetries : (ℕ → S → S × Outcome R) → Type 0
  NeverRetries fn = (n : ℕ) (s : S) → IsNoRetry (fn n s).1

  abbrev Ends : (ℕ → S → S × Outcome R) → ℕ → ℕ → ℕ → ℕ → S → Letters → Type 0
  Ends fn max_tries fuel k waited s l =
      (r : Run S R) × (work fn max_tries fuel (suc k) waited s l ≡ some r)
      × (r.tries ≤ max_tries)
      × (r.waited + 5 * 2 ^ k ≡ waited + 5 * 2 ^ (r.tries - 1))
      × IsAccounted max_tries l.letters r.result r.tries r.letters.letters
      × (last : S) × (r.state ≡ (fn r.tries last).0)
      × Came r.result (fn r.tries last).1

  work_settled :
      (fn : ℕ → S → S × Outcome R) (max_tries fuel k waited : ℕ) (s : S) (l m : Letters)
      (x : Result R)
      → settle max_tries (suc k) (fn (suc k) s).1 l ≡ (m, x)
      → work fn max_tries (suc fuel) (suc k) waited s l
        ≡ conclude
            (λ d. work fn max_tries fuel (suc (suc k)) (waited + d) (fn (suc k) s).0 m)
            (suc k)
            waited
            (fn (suc k) s).0
            m
            x
  unfolding wrapper
  work_settled fn max_tries fuel k waited s l m x e =
      ap
        (λ q.
          conclude (λ d. work fn max_tries fuel (suc (suc k)) (waited + d) (fn (suc k) s).0 q.0)
            (suc k) waited (fn (suc k) s).0 q.0 q.1)
        e

  -- A try with a known outcome, when the tries after it are known to end.
  try-Ends :
      (fn : ℕ → S → S × Outcome R) (max_tries fuel k waited : ℕ) (s : S) (l : Letters)
      (o : Outcome R)
      → (fn (suc k) s).1 ≡ o
      → IsNoRetry o
      → k + suc fuel ≡ max_tries
      → l.has_engine ≡ true
      → l.inserts ≡ true
      → (1 ≤ fuel
          → Ends fn max_tries fuel (suc k) (waited + 5 * 2 ^ (suc k - 1)) (fn (suc k) s).0 l)
      → Ends fn max_tries (suc fuel) k waited s l
  unfolding settle
  try-Ends fn max_tries fuel k waited s l (returned x) e n h a b again = (
    record {
      tries = suc k;
      waited = waited;
      state = (fn (suc k) s).0;
      letters = l;
      result = done x;
    },
    work_settled fn max_tries fuel k waited s l l (done x) (rw e refl),
    omega arith,
    wait_here waited k,
    refl,
    s,
    refl,
    e,
  )
  try-Ends fn max_tries fuel k waited s l (permanent x) e n h a b again =
      let m : Letters = record l { letters = x ∷ l.letters } in
      (
        record {
          tries = suc k;
          waited = waited;
          state = (fn (suc k) s).0;
          letters = m;
          result = failed x;
        },
        work_settled fn max_tries fuel k waited s l m (failed x)
            (rw e (ap (λ m. (m, failed x)) (letter_kept x l a b))),
        omega arith,
        wait_here waited k,
        refl,
        s,
        refl,
        e,
      )
  try-Ends fn max_tries fuel k waited s l (raised x) e n h a b again =
      let m : Letters = record l { letters = x ∷ l.letters } in
      elim (Bool-cases (ltb (suc k) max_tries)) [
        | inr full ↦ (
          record {
            tries = suc k;
            waited = waited;
            state = (fn (suc k) s).0;
            letters = m;
            result = raises x;
          },
          work_settled fn max_tries fuel k waited s l m (raises x)
              (rw e (rw full (ap (λ m. (m, raises x)) (letter_kept x l a b)))),
          omega arith,
          wait_here waited k,
          ((ground arith), refl),
          s,
          refl,
          e,
        )
        | inl more ↦
            let (r, runs, bound, wait, acc, last, here, came) = again (ground arith) in
            (
              r,
              work_settled fn max_tries fuel k waited s l l (retry (5 * 2 ^ (suc k - 1)))
                    (rw e (rw more refl))
                  ∙ runs,
              bound,
              wait_more waited k r.tries r.waited wait,
              acc,
              last,
              here,
              came,
            )
      ]
  try-Ends fn max_tries fuel k waited s l (retried d) e n h a b again = absurd n

  -- A job from one of its tries on.
  work-Ends :
      (fn : ℕ → S → S × Outcome R) (max_tries fuel k waited : ℕ) (s : S) (l : Letters)
      → NeverRetries fn
      → k + fuel ≡ max_tries
      → 1 ≤ fuel
      → l.has_engine ≡ true
      → l.inserts ≡ true
      → Ends fn max_tries fuel k waited s l
  work-Ends fn max_tries zero k waited s l never h pos a b = absurd (omega arith)
  work-Ends fn max_tries (suc fuel) k waited s l never h pos a b =
      try-Ends fn max_tries fuel k waited s l (fn (suc k) s).1 refl (never (suc k) s) h a b (λ p.
        work-Ends fn max_tries fuel (suc k) (waited + 5 * 2 ^ (suc k - 1)) (fn (suc k) s).0 l never
          (omega arith) p a b)

  -- A job whose body leaves retries to the wrapper ends within its tries, after waiting
  -- 5 * (2 ^ (tries - 1) - 1) seconds in all. It adds no dead letter when it returns and one when it
  -- fails, and only a permanent failure ends it before its last try. What it leaves is what its last try
  -- left. The letters can be written.
  pub retries_end :
      (fn : ℕ → S → S × Outcome R) (max_tries : ℕ) (s : S) (l : Letters)
      → NeverRetries fn
      → 1 ≤ max_tries
      → l.has_engine ≡ true
      → l.inserts ≡ true
      → (r : Run S R) × (work fn max_tries max_tries 1 0 s l ≡ some r)
        × (r.tries ≤ max_tries)
        × (r.waited + 5 ≡ 5 * 2 ^ (r.tries - 1))
        × IsAccounted max_tries l.letters r.result r.tries r.letters.letters
        × (last : S) × (r.state ≡ (fn r.tries last).0)
        × Came r.result (fn r.tries last).1
  retries_end fn max_tries s l never pos a b =
      let (r, runs, bound, wait, acc, last, here, came) =
        work-Ends fn max_tries max_tries 0 0 s l never (omega arith) pos a b in
      (r, runs, bound, omega (arith, wait), acc, last, here, came)
