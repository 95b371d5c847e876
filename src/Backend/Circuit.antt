-- ===== src/Backend/Circuit.antt =====
-- services/provider_resilience.py, class CircuitBreaker: the breaker that one process keeps in memory.
-- One provider's entry of `_providers`; the lock makes each operation one step. Times are in
-- milliseconds.
pub mod Recovery
use praxis_interview_os.Base.{ℕ, suc, ◌+◌, ◌-◌, Bool, true, false, ltb, leb, if◌then◌else◌}

pub data CircuitState : Type 0 where
  closed opened half_open : CircuitState

-- __init__ with its arguments.
pub record Settings : Type 0 where
  pub failure_threshold : ℕ
  pub recovery_timeout : ℕ
  pub half_open_max_calls : ℕ
  pub success_threshold : ℕ

unfoldable pub default_settings : Settings
default_settings = record {
  failure_threshold = 5;
  recovery_timeout = 60_000;
  half_open_max_calls = 2;
  success_threshold = 2;
}

pub record Circuit : Type 0 where
  pub state : CircuitState
  pub failures : ℕ
  pub successes : ℕ
  pub last_failure_time : ℕ
  pub half_open_calls : ℕ

-- _get_state for a provider that is not known yet.
unfoldable pub new_circuit : Circuit
new_circuit = record {
  state = closed;
  failures = 0;
  successes = 0;
  last_failure_time = 0;
  half_open_calls = 0;
}

module _ (settings : Settings) where
  -- can_call at the time `now`.
  unfoldable pub can_call : ℕ → Circuit → Circuit × Bool
  can_call now c = elim (c.state) [
    | closed ↦ (c, true)
    | opened ↦
        if leb settings.recovery_timeout (now - c.last_failure_time)
        then (record c { state = half_open; half_open_calls = 0; successes = 0 }, true)
        else (c, false)
    | half_open ↦ (c, ltb c.half_open_calls settings.half_open_max_calls)
  ]

  -- record_success.
  unfoldable pub record_success : Circuit → Circuit
  record_success c = elim (c.state) [
    | half_open ↦
        if leb settings.success_threshold (suc c.successes)
        then record c { state = closed; successes = suc c.successes; failures = 0 }
        else record c { successes = suc c.successes }
    | closed ↦ record c { failures = c.failures - 1 }
    | opened ↦ c
  ]

  -- record_failure at the time `now`.
  unfoldable pub record_failure : ℕ → Circuit → Circuit
  record_failure now c =
      let v = record c { failures = suc c.failures; last_failure_time = now } in
      elim (c.state) [
        | half_open ↦ record v { state = opened }
        | closed ↦
            if leb settings.failure_threshold v.failures then record v { state = opened } else v
        | opened ↦ v
      ]
