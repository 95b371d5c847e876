-- ===== src/Gateway/Retries/Frame.antt =====
-- A provider call changes no Redis key but the two of its breaker, and time only goes forward.
use praxis_interview_os.Base.{
  ℕ, zero, suc, ◌+◌, ◌*◌, ◌≤◌, ◌≡◌, refl, ◌≢◌, Bool, true, false, Option, none, some, String, arith,
  ◌∙◌, Bool-cases, str_eq, leb, ltb, if◌then◌else◌, Option-cases, inl, inr, ◌||◌,
}
use praxis_interview_os.Redis.{Redis, RedisKey}
use praxis_interview_os.Gateway.World.{World, wait}
use praxis_interview_os.Gateway.Breaker.{
  Breaker, key_failures, key_state, get_state, redis_transition, transition_to, record_failure,
  record_success, probe, can_execute,
}
use praxis_interview_os.Gateway.Retries.{
  CallResult, success, failure, call_cancelled, RetryResult, Surroundings, attempt, is_retryable,
  on_failure, retry_loop, with_retries, backoff_delay,
}

module _ (r : Redis) (j : RedisKey) where
  open r use {get, counter}

  -- The key `j` holds in `v` what it held in `w`, and `v` is not earlier.
  pub record Same (w v : World r) : Type 0 where
    pub later : w.now ≤ v.now
    pub values : (u : ℕ) → get u j v.store ≡ get u j w.store
    pub counts : (u : ℕ) → counter u j v.store ≡ counter u j w.store

  pub Same-refl : (w : World r) → Same w w
  Same-refl w = record { later = omega arith; values = λ u. refl; counts = λ u. refl }

  pub Same-trans : {w v u : World r} → Same w v → Same v u → Same w u
  Same-trans p q = record {
    later = omega (arith, p.later, q.later);
    values = λ t. q.values t ∙ p.values t;
    counts = λ t. q.counts t ∙ p.counts t;
  }

  pub Same-wait : (n : ℕ) (w : World r) → Same w (wait r n w)
  Same-wait n w = record { later = omega arith; values = λ u. refl; counts = λ u. refl }

  pub Same-if : {w x y : World r} (t : Bool) → Same w x → Same w y → Same w (if t then x else y)
  Same-if true p q = p
  Same-if false p q = q

  pub Same-if_fst :
      {B : Type 0} {w : World r} (t : Bool) (x y : World r × B)
      → Same w x.0
      → Same w y.0
      → Same w (if t then x else y).0
  Same-if_fst true x y p q = p
  Same-if_fst false x y p q = q

  pub Same-incr :
      (k : RedisKey) (n : ℕ) (w : World r)
      → k ≢ j
      → Same w (record w { store = r.incr w.now k n w.store })
  Same-incr k n w ne = record {
    later = omega arith;
    values = λ u. r.get-incr_ne w.now u k j n w.store ne;
    counts = λ u. r.counter-incr_ne w.now u k j n w.store ne;
  }

  pub Same-set :
      (k : RedisKey) (v : String) (ex : Option ℕ) (w : World r)
      → k ≢ j
      → Same w (record w { store = r.set w.now k v ex w.store })
  Same-set k v ex w ne = record {
    later = omega arith;
    values = λ u. r.get-set_ne w.now u k j v ex w.store ne;
    counts = λ u. r.counter-set_ne w.now u k j v ex w.store ne;
  }

  pub Same-delete :
      (k : RedisKey) (w : World r) → k ≢ j → Same w (record w { store = r.delete k w.store })
  Same-delete k w ne = record {
    later = omega arith;
    values = λ u. r.get-delete_ne u k j w.store ne;
    counts = λ u. r.counter-delete_ne u k j w.store ne;
  }

  pub Same-expire :
      (k : RedisKey) (ttl : ℕ) (w : World r)
      → k ≢ j
      → Same w (record w { store = r.expire w.now k ttl w.store })
  Same-expire k ttl w ne = record {
    later = omega arith;
    values = λ u. r.get-expire_ne w.now u k j ttl w.store ne;
    counts = λ u. r.counter-expire_ne w.now u k j ttl w.store ne;
  }

  module _ (b : Breaker) (ne_failures : key_failures b ≢ j) (ne_state : key_state b ≢ j) where
    redis_transition-Same : (s : String) (w : World r) → Same w (redis_transition r b s w)
    unfolding redis_transition
    redis_transition-Same s w =
        let reset = record w { store = r.set w.now (key_state b) "CLOSED" none w.store } in
        Same-if (str_eq s "OPEN")
          (Same-set (key_state b) "OPEN" (some (b.cooldown_seconds * 1000)) w ne_state)
          (Same-if (str_eq s "CLOSED")
            (Same-trans (Same-set (key_state b) "CLOSED" none w ne_state)
              (Same-delete (key_failures b) reset ne_failures))
            (Same-refl w))

    transition_to-Same : (s : String) (w : World r) → Same w (transition_to r b s w)
    unfolding transition_to
    transition_to-Same s w = record {
      later = (redis_transition-Same s w).later;
      values = (redis_transition-Same s w).values;
      counts = (redis_transition-Same s w).counts;
    }

    pub record_failure-Same : (w : World r) → Same w (record_failure r b w)
    unfolding record_failure
    record_failure-Same w =
        let v = record w { store = r.incr w.now (key_failures b) 1 w.store } in
        let counted : Same w v = Same-incr (key_failures b) 1 w ne_failures in
        Same-if (leb b.max_failures (counter v.now (key_failures b) v.store))
          (Same-if (str_eq (get_state r b v) "OPEN") counted
            (Same-trans counted (transition_to-Same "OPEN" v)))
          counted

    pub record_success-Same : (w : World r) → Same w (record_success r b w)
    unfolding record_success
    record_success-Same w =
        let current = get_state r b w in
        let v =
          if str_eq current "HALF_OPEN" || str_eq current "OPEN"
          then transition_to r b "CLOSED" w
          else w in
        Same-trans
          (Same-if (str_eq current "HALF_OPEN" || str_eq current "OPEN")
            (transition_to-Same "CLOSED" w) (Same-refl w))
          (Same-delete (key_failures b) v ne_failures)

    probe-Same : (w : World r) → Same w (probe r b w).0
    unfolding probe
    probe-Same w = elim (Option-cases (get w.now (key_state b) w.store)) [
      | inl e ↦
          rw (e, probe)
            (Same-set (key_state b) "HALF_OPEN" (some (b.cooldown_seconds * 1000)) w ne_state)
      | inr (x, e) ↦ rw (e, probe) (Same-refl w)
    ]

    pub can_execute-Same : (w : World r) → Same w (can_execute r b w).0
    unfolding can_execute
    can_execute-Same w = elim (Bool-cases (str_eq (get_state r b w) "CLOSED")) [
      | inl e ↦ rw e (Same-refl w)
      | inr e ↦ rw e (elim (Bool-cases (str_eq (get_state r b w) "OPEN")) [
        | inl f ↦ rw f (Same-refl w)
        | inr f ↦ rw f (probe-Same w)
      ])
    ]

    module _ {A : Type 0} (env : Surroundings A) (max_retries base_delay_ms : ℕ) where
      attempt-Same :
          (k : ℕ) (res : CallResult A) (w : World r) (rest : World r → World r × RetryResult A)
          → ((u : World r) → Same u (rest u).0)
          → Same w (attempt r env b max_retries base_delay_ms k res w rest).0
      unfolding attempt on_failure
      attempt-Same k (success a) w rest more = record_success-Same w
      attempt-Same k (failure kind) w rest more =
          let v = record_failure r b w in
          let kept : Same w v = record_failure-Same w in
          let delay = backoff_delay base_delay_ms (k + 1) (env.jitter k) in
          Same-if_fst (is_retryable kind) _ _
            (Same-if_fst (ltb max_retries (k + 1)) _ _ kept (
              Same-if_fst (env.cancelled_in_delay k) _ _ kept
                (Same-trans kept (Same-trans (Same-wait delay v) (more (wait r delay v))))))
            kept
      attempt-Same k call_cancelled w rest more = Same-refl w

      retry_loop-Same :
          (fuel k : ℕ) (w : World r)
          → Same w (retry_loop r env b max_retries base_delay_ms fuel k w).0
      unfolding retry_loop
      retry_loop-Same zero k w = Same-refl w
      retry_loop-Same (suc fuel) k w =
          let v = wait r (env.took k) w in
          let rest = λ (u : World r). retry_loop r env b max_retries base_delay_ms fuel (k + 1) u in
          Same-if_fst (leb k max_retries) _ _
            (Same-if_fst (env.is_cancelled k) _ _ (Same-refl w) (
              Same-trans (Same-wait (env.took k) w)
                (attempt-Same k (env.call k) v rest (λ u. retry_loop-Same fuel (k + 1) u))))
            (Same-refl w)

      pub with_retries-Same :
          (w : World r) → Same w (with_retries r env b max_retries base_delay_ms w).0
      unfolding with_retries
      with_retries-Same w = elim (Bool-cases (can_execute r b w).1) [
        | inl go ↦ rw go (
            Same-trans (can_execute-Same w)
              (retry_loop-Same (max_retries + 2) 0 (can_execute r b w).0))
        | inr no_go ↦ rw no_go (can_execute-Same w)
      ]
