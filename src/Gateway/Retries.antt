-- ===== src/Gateway/Retries.antt =====
-- resilience.py, with_retries: a provider call behind its breaker, retried with growing delays.
pub mod Outcomes
pub mod Frame
use praxis_interview_os.Base.{
  ℕ, zero, suc, ◌+◌, ◌-◌, ◌*◌, ◌^◌, Bool, true, false, Option, none, some, leb, ltb, if◌then◌else◌,
}
use praxis_interview_os.Redis.{Redis}
use praxis_interview_os.Gateway.World.{World, wait}
use praxis_interview_os.Gateway.Breaker.{Breaker, record_failure, record_success, can_execute}

-- errors.py: the subclasses of ProviderError that a provider raises, and any other exception.
pub data ProviderFailure : Type 0 where
  auth_error rate_limit_error timeout_error server_error unknown_error : ProviderFailure

-- How one call of a provider ends.
pub data CallResult (A : Type 0) : Type 0 where
  success : A → CallResult A
  failure : ProviderFailure → CallResult A
  call_cancelled : CallResult A

-- How `with_retries` ends. `exhausted` is GatewayExhaustedError with its `__cause__`; the last two
-- constructors stand for a loop that ends by its test and for missing fuel.
pub data RetryResult (A : Type 0) : Type 0 where
  done : A → RetryResult A
  exhausted : Option ProviderFailure → RetryResult A
  cancelled : RetryResult A
  returned_none : RetryResult A
  out_of_fuel : RetryResult A

-- What the surroundings do at the n-th attempt: the call's result and duration, whether the token
-- is cancelled before it, the jitter of the delay after it, and whether the token is cancelled
-- during that delay. Times are in milliseconds.
pub record Surroundings (A : Type 0) : Type 0 where
  pub call : ℕ → CallResult A
  pub took : ℕ → ℕ
  pub is_cancelled : ℕ → Bool
  pub jitter : ℕ → ℕ
  pub cancelled_in_delay : ℕ → Bool

-- The except clause of rate limits, timeouts and server errors.
abbrev pub is_retryable : ProviderFailure → Bool
is_retryable rate_limit_error = true
is_retryable timeout_error = true
is_retryable server_error = true
is_retryable _ = false

-- `base_delay_ms * 2 ** (attempts - 1) + random.randint(0, 50)`.
unfoldable pub backoff_delay : ℕ → ℕ → ℕ → ℕ
backoff_delay base_delay_ms attempts jitter = base_delay_ms * 2 ^ (attempts - 1) + jitter

module _ (r : Redis) {A : Type 0} (env : Surroundings A) (b : Breaker)
    (max_retries base_delay_ms : ℕ) where
  -- The failure of attempt number `attempts`, with the rest of the loop for a further attempt.
  unfoldable pub on_failure :
      ℕ → ProviderFailure → World r → (World r → World r × RetryResult A) → World r × RetryResult A
  unfolding backoff_delay
  on_failure attempts kind w rest =
      let v = record_failure r b w in
      if is_retryable kind
      then (if ltb max_retries (attempts + 1)
          then (v, exhausted (some kind))
          else (if env.cancelled_in_delay attempts
              then (v, cancelled)
              else rest
                  (wait r (backoff_delay base_delay_ms (attempts + 1) (env.jitter attempts)) v)))
      else (v, exhausted (some kind))

  -- The body of the try statement with its handlers, once the call has ended.
  unfoldable pub attempt :
      ℕ → CallResult A → World r → (World r → World r × RetryResult A) → World r × RetryResult A
  unfolding on_failure
  attempt attempts (success a) v rest = (record_success r b v, done a)
  attempt attempts (failure kind) v rest = on_failure attempts kind v rest
  attempt attempts call_cancelled v rest = (v, cancelled)

  -- The while loop, on fuel.
  unfoldable pub retry_loop : ℕ → ℕ → World r → World r × RetryResult A
  unfolding attempt
  retry_loop zero attempts w = (w, out_of_fuel)
  retry_loop (suc fuel) attempts w =
      let v = wait r (env.took attempts) w in
      let rest = λ (u : World r). retry_loop fuel (attempts + 1) u in
      if leb attempts max_retries
      then (if env.is_cancelled attempts
          then (w, cancelled)
          else attempt attempts (env.call attempts) v rest)
      else (w, returned_none)

  unfoldable pub with_retries : World r → World r × RetryResult A
  unfolding retry_loop
  with_retries w =
      let (v, allowed) = can_execute r b w in
      if allowed then retry_loop (max_retries + 2) 0 v else (v, exhausted none)
