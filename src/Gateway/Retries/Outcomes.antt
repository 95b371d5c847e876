-- ===== src/Gateway/Retries/Outcomes.antt =====
-- What the retry loop returns, in terms of the calls that it made.
use praxis_interview_os.Base.{
  ℕ, zero, suc, ◌+◌, ◌≤◌, ◌<◌, ◌≡◌, refl, ◌⊎◌, inl, inr, true, false, none, some, ltb, arith,
  Bool-cases, ltb→lt, tests, subst, sym, le→leb,
}
use native.Mathlib.Decide.{ℕ_discrete}
use native.Mathlib.Numerals.{add-one}
use praxis_interview_os.Redis.{Redis}
use praxis_interview_os.Gateway.World.{World, wait}
use praxis_interview_os.Gateway.Breaker.{Breaker, record_failure, can_execute}
use praxis_interview_os.Gateway.Retries.{
  ProviderFailure, CallResult, success, failure, call_cancelled, attempt, RetryResult, done,
  exhausted, cancelled, returned_none, out_of_fuel, Surroundings, is_retryable, on_failure,
  retry_loop, with_retries, backoff_delay,
}

-- A call that is tried again.
abbrev pub IsRetried : {A : Type 0} → CallResult A → Type 0
IsRetried (success a) = ⊥
IsRetried (failure kind) = is_retryable kind ≡ true
IsRetried call_cancelled = ⊥

-- What a result says of the calls, from attempt number `k` on: every earlier attempt was retried.
abbrev pub Explains : {A : Type 0} → Surroundings A → ℕ → ℕ → RetryResult A → Type 0
Explains env max_retries k (done a) =
    (n : ℕ) × (k ≤ n)
    × (n ≤ max_retries)
    × (env.call n ≡ success a)
    × ((i : ℕ) → k ≤ i → i < n → IsRetried (env.call i))
Explains env max_retries k (exhausted none) = ⊥
Explains env max_retries k (exhausted (some kind)) =
    (n : ℕ) × (k ≤ n)
    × (n ≤ max_retries)
    × (env.call n ≡ failure kind)
    × ((is_retryable kind ≡ false) ⊎ (n ≡ max_retries))
    × ((i : ℕ) → k ≤ i → i < n → IsRetried (env.call i))
Explains env max_retries k cancelled = Unit
Explains env max_retries k returned_none = ⊥
Explains env max_retries k out_of_fuel = ⊥

extend :
    {A : Type 0} (env : Surroundings A) (k n : ℕ)
    → IsRetried (env.call k)
    → ((i : ℕ) → suc k ≤ i → i < n → IsRetried (env.call i))
    → (i : ℕ) → k ≤ i
    → i < n
    → IsRetried (env.call i)
extend env k n h all i lo hi = elim (ℕ_discrete i k) [
  | yes e ↦ subst (λ j. IsRetried (env.call j)) (sym e) h
  | no ne ↦ all i (omega arith) hi
]

Explains-suc :
    {A : Type 0} (env : Surroundings A) (m k : ℕ) (res : RetryResult A)
    → IsRetried (env.call k)
    → Explains env m (suc k) res
    → Explains env m k res
Explains-suc env m k (done a) h (n, lo, hi, e, all) = (n, omega arith, hi, e, extend env k n h all)
Explains-suc env m k (exhausted none) h x = x
Explains-suc env m k (exhausted (some kind)) h (n, lo, hi, e, why, all) =
    (n, omega arith, hi, e, why, extend env k n h all)
Explains-suc env m k cancelled h x = tt
Explains-suc env m k returned_none h x = x
Explains-suc env m k out_of_fuel h x = x

module _ (r : Redis) {A : Type 0} (env : Surroundings A) (b : Breaker)
    (max_retries base_delay_ms : ℕ) where
  abbrev loop : ℕ → ℕ → World r → World r × RetryResult A
  loop = retry_loop r env b max_retries base_delay_ms

  on_failure-Explains :
      (k : ℕ) (kind : ProviderFailure) (v : World r) (rest : World r → World r × RetryResult A)
      → env.call k ≡ failure kind
      → k ≤ max_retries
      → ((u : World r) → suc k ≤ max_retries → Explains env max_retries (suc k) (rest u).1)
      → Explains env max_retries k (on_failure r env b max_retries base_delay_ms k kind v rest).1
  unfolding on_failure
  on_failure-Explains k kind v rest e h more = elim (Bool-cases (is_retryable kind)) [
    | inr never ↦ rw never (k, omega arith, h, e, inl never, λ i lo hi. absurd (omega arith))
    | inl again ↦ elim (Bool-cases (ltb max_retries (k + 1))) [
      | inl last ↦
          rw (again, last)
            (k, omega arith, h, e, inr (ground arith), λ i lo hi. absurd (omega arith))
      | inr left ↦
          rw (again, left)
            (elim (Bool-cases (env.cancelled_in_delay k)) [
              | inl c ↦ rw c tt
              | inr c ↦ rw c (
                  Explains-suc env max_retries k _ (subst IsRetried (sym e) again) (
                    more
                      (wait r (backoff_delay base_delay_ms (k + 1) (env.jitter k))
                        (record_failure r b v))
                      (ground arith)))
            ])
    ]
  ]

  attempt-Explains :
      (k : ℕ) (res : CallResult A) (v : World r) (rest : World r → World r × RetryResult A)
      → env.call k ≡ res
      → k ≤ max_retries
      → ((u : World r) → suc k ≤ max_retries → Explains env max_retries (suc k) (rest u).1)
      → Explains env max_retries k (attempt r env b max_retries base_delay_ms k res v rest).1
  unfolding attempt
  attempt-Explains k (success a) v rest e h more =
      (k, omega arith, h, e, λ i lo hi. absurd (omega arith))
  attempt-Explains k (failure kind) v rest e h more = on_failure-Explains k kind v rest e h more
  attempt-Explains k call_cancelled v rest e h more = tt

  loop-Explains :
      (fuel k : ℕ) (w : World r)
      → k ≤ max_retries
      → max_retries + 1 ≤ fuel + k
      → Explains env max_retries k (loop fuel k w).1
  unfolding retry_loop
  loop-Explains zero k w h enough = absurd (omega arith)
  loop-Explains (suc fuel) k w h enough =
      rw (le→leb k max_retries h) (elim (Bool-cases (env.is_cancelled k)) [
        | inl c ↦ rw c tt
        | inr c ↦
            rw (c, add-one k)
              (attempt-Explains k (env.call k) (wait r (env.took k) w) (λ u. loop fuel (suc k) u)
                refl h (λ u more. loop-Explains fuel (suc k) u more (omega arith)))
      ])

  -- What `with_retries` returns is explained by the calls it made. A value is the result of the
  -- first call that was not retried, and a failure is that of a call which is not retryable or was
  -- the last of `max_retries` + 1; every call before it failed with a rate limit, a timeout or a
  -- server error. A failure without a cause means that the breaker refused. The loop never ends by
  -- its own test, and its fuel is enough.
  pub with_retries_explained :
      (w : World r)
      → let res = (with_retries r env b max_retries base_delay_ms w).1 in
        Explains env max_retries 0 res ⊎ ((res ≡ exhausted none) × ((can_execute r b w).1 ≡ false))
  unfolding with_retries
  with_retries_explained w = elim (Bool-cases (can_execute r b w).1) [
    | inl go ↦
        rw go (
          inl (loop-Explains (max_retries + 2) 0 (can_execute r b w).0 (omega arith) (omega arith)))
    | inr no_go ↦ rw no_go (inr (refl, refl))
  ]

  -- The calls from attempt `k` on, of which the first that is not retried is number `n` and returns
  -- `a`, while nobody cancels.
  pub record Succeeds (k n : ℕ) (a : A) : Type 0 where
    pub in_order : k ≤ n
    pub within : n ≤ max_retries
    pub result : env.call n ≡ success a
    pub earlier : (i : ℕ) → k ≤ i → i < n → IsRetried (env.call i)
    pub never_cancelled : (i : ℕ) → env.is_cancelled i ≡ false
    pub never_cancelled_in_delay : (i : ℕ) → env.cancelled_in_delay i ≡ false

  attempt-retried :
      (k n : ℕ) (a : A) (res : CallResult A) (v : World r)
      (rest : World r → World r × RetryResult A)
      → IsRetried res
      → k < n
      → Succeeds k n a
      → ((u : World r) → (rest u).1 ≡ done a)
      → (attempt r env b max_retries base_delay_ms k res v rest).1 ≡ done a
  unfolding attempt on_failure
  attempt-retried k n a (success x) v rest h lt s more = absurd h
  attempt-retried k n a (failure kind) v rest h lt s more =
      rw (h, s.never_cancelled_in_delay k)
        (elim (Bool-cases (ltb max_retries (k + 1))) [
          | inl last ↦ absurd (omega (tests, s.within, ltb→lt max_retries (k + 1) last))
          | inr left ↦ rw left (
              more (
                wait r (backoff_delay base_delay_ms (k + 1) (env.jitter k)) (record_failure r b v)))
        ])
  attempt-retried k n a call_cancelled v rest h lt s more = absurd h

  Succeeds-suc : (k n : ℕ) (a : A) → Succeeds k n a → k < n → Succeeds (suc k) n a
  Succeeds-suc k n a s lt = record {
    in_order = lt;
    within = s.within;
    result = s.result;
    earlier = λ i lo hi. s.earlier i (omega arith) hi;
    never_cancelled = s.never_cancelled;
    never_cancelled_in_delay = s.never_cancelled_in_delay;
  }

  loop-done :
      (fuel k n : ℕ) (a : A) (w : World r)
      → Succeeds k n a
      → n + 1 ≤ fuel + k
      → (loop fuel k w).1 ≡ done a
  unfolding retry_loop
  loop-done zero k n a w s enough = absurd (omega (arith, s.in_order))
  loop-done (suc fuel) k n a w s enough =
      rw
        (le→leb k max_retries (omega (arith, s.in_order, s.within)), s.never_cancelled k, add-one k)
        (elim (ℕ_discrete k n) [
          | yes e ↦ rw (e, s.result) refl
          | no ne ↦
              attempt-retried k n a (env.call k) (wait r (env.took k) w) (λ u. loop fuel (suc k) u)
                (s.earlier k (omega arith) (omega (arith, s.in_order))) (omega (arith, s.in_order))
                s
                (λ u.
                  loop-done fuel (suc k) n a u (Succeeds-suc k n a s (omega (arith, s.in_order)))
                    (omega arith))
        ])

  -- If the breaker lets the call through, nobody cancels, and one of the first `max_retries` + 1
  -- calls succeeds after calls that are all retried, then `with_retries` returns its value.
  pub with_retries-Succeeds :
      (n : ℕ) (a : A) (w : World r)
      → (can_execute r b w).1 ≡ true
      → Succeeds 0 n a
      → (with_retries r env b max_retries base_delay_ms w).1 ≡ done a
  unfolding with_retries
  with_retries-Succeeds n a w allowed s =
      rw allowed
        (loop-done (max_retries + 2) 0 n a (can_execute r b w).0 s (omega (arith, s.within)))
