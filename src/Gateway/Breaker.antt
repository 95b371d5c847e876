-- ===== src/Gateway/Breaker.antt =====
-- resilience.py, class CircuitBreaker: the per-provider breaker kept in Redis.
pub mod States
use praxis_interview_os.Base.{
  ℕ, ◌+◌, ◌*◌, Bool, true, false, Option, none, some, String, leb, if◌then◌else◌, str_eq, ◌||◌,
}
use praxis_interview_os.Redis.{Redis, RedisKey, breaker_failures, breaker_state}
use praxis_interview_os.Gateway.World.{World, write_health}

pub record Breaker : Type 0 where
  pub provider_name : String
  pub capability : String
  pub max_failures : ℕ
  pub cooldown_seconds : ℕ

abbrev pub key_failures : Breaker → RedisKey
key_failures b = breaker_failures b.provider_name b.capability

abbrev pub key_state : Breaker → RedisKey
key_state b = breaker_state b.provider_name b.capability

-- __init__ with its defaults.
unfoldable pub breaker_for : String → String → Breaker
breaker_for name capability = record {
  provider_name = name;
  capability = capability;
  max_failures = 5;
  cooldown_seconds = 30;
}

-- `state.decode("utf-8") if state else "CLOSED"`: a missing or empty value reads as CLOSED.
unfoldable pub decode_state : Option String → String
decode_state none = "CLOSED"
decode_state (some v) = if str_eq v "" then "CLOSED" else v

-- The value of `state` in the provider_health row.
unfoldable pub health_state : String → String
health_state s =
    if str_eq s "OPEN"
    then "open"
    else (if str_eq s "CLOSED" then "closed" else (if str_eq s "HALF_OPEN" then "half_open" else s))

module _ (r : Redis) where
  open r use {get, counter, set, incr, delete}

  -- get_state.
  unfoldable pub get_state : Breaker → World r → String
  unfolding decode_state
  get_state b w = decode_state (get w.now (key_state b) w.store)

  unfoldable pub redis_transition : Breaker → String → World r → World r
  redis_transition b new_state w =
      if str_eq new_state "OPEN"
      then record w {
        store = set w.now (key_state b) "OPEN" (some (b.cooldown_seconds * 1000)) w.store;
      }
      else (if str_eq new_state "CLOSED"
          then record w {
            store = delete (key_failures b) (set w.now (key_state b) "CLOSED" none w.store);
          }
          else w)

  -- _transition_to.
  unfoldable pub transition_to : Breaker → String → World r → World r
  unfolding redis_transition health_state write_health
  transition_to b new_state w =
      write_health r
        (record {
          provider = b.provider_name;
          capability = b.capability;
          state = health_state new_state;
        })
        (redis_transition b new_state w)

  -- record_failure.
  unfoldable pub record_failure : Breaker → World r → World r
  unfolding transition_to get_state
  record_failure b w =
      let v = record w { store = incr w.now (key_failures b) 1 w.store } in
      if leb b.max_failures (counter v.now (key_failures b) v.store)
      then (if str_eq (get_state b v) "OPEN" then v else transition_to b "OPEN" v)
      else v

  -- record_success.
  unfoldable pub record_success : Breaker → World r → World r
  unfolding transition_to get_state
  record_success b w =
      let current = get_state b w in
      let v =
        if str_eq current "HALF_OPEN" || str_eq current "OPEN"
        then transition_to b "CLOSED" w
        else w in
      record v { store = delete (key_failures b) v.store }

  -- `set(key, "HALF_OPEN", nx=True, ex=cooldown)`: only a missing key is set.
  unfoldable pub probe : Breaker → World r → World r × Bool
  probe b w = elim (get w.now (key_state b) w.store) [
    | none ↦ (
      record w {
        store = set w.now (key_state b) "HALF_OPEN" (some (b.cooldown_seconds * 1000)) w.store;
      },
      true,
    )
    | some _ ↦ (w, false)
  ]

  -- can_execute.
  unfoldable pub can_execute : Breaker → World r → World r × Bool
  unfolding get_state probe
  can_execute b w =
      let state = get_state b w in
      if str_eq state "CLOSED"
      then (w, true)
      else (if str_eq state "OPEN" then (w, false) else probe b w)
