-- ===== src/Realtime/Lock.antt =====
-- session/redis_state.py: the lock that keeps a session on one instance, and the sequence counter.
-- A Redis that cannot be reached makes every operation fail open; here it answers. Renewing and releasing
-- are two commands each: what the first one read is given to the second, which runs later.
pub mod Exclusion
use praxis_interview_os.Base.{
  ℕ, ◌+◌, Bool, true, false, Option, none, some, String, str_eq, if◌then◌else◌,
}
use praxis_interview_os.Redis.{Redis, RedisKey, session_lock, session_state, session_sequence}

-- The TTLs of the module, in milliseconds.
abbrev pub session_state_ttl : ℕ
session_state_ttl = 7_200_000

abbrev pub session_lock_ttl : ℕ
session_lock_ttl = 30_000

abbrev pub sequence_number_ttl : ℕ
sequence_number_ttl = 86_400_000

-- `current and current.decode() == instance_id`; an empty value is falsy.
unfoldable pub is_held_by : String → Option String → Bool
is_held_by instance_id none = false
is_held_by instance_id (some v) = if str_eq v "" then false else str_eq v instance_id

module _ (r : Redis) where
  open r use {Store, get, counter, set, incr, delete, expire}

  -- acquire_session_lock: SET NX EX.
  unfoldable pub acquire_session_lock : ℕ → String → String → Store → Store × Bool
  acquire_session_lock now session instance_id s = elim (get now (session_lock session) s) [
    | none ↦ (set now (session_lock session) instance_id (some session_lock_ttl) s, true)
    | some v ↦ (s, false)
  ]

  -- The GET of renew_session_lock and of release_session_lock.
  abbrev pub read_session_lock : ℕ → String → Store → Option String
  read_session_lock now session s = get now (session_lock session) s

  -- renew_session_lock, after its GET.
  unfoldable pub renew_session_lock : ℕ → String → String → Option String → Store → Store × Bool
  unfolding is_held_by
  renew_session_lock now session instance_id current s =
      if is_held_by instance_id current
      then (expire now (session_lock session) session_lock_ttl s, true)
      else (s, false)

  -- release_session_lock, after its GET.
  unfoldable pub release_session_lock : String → String → Option String → Store → Store
  unfolding is_held_by
  release_session_lock session instance_id current s =
      if is_held_by instance_id current then delete (session_lock session) s else s

  -- save_session_state and load_session_state, of the JSON text.
  unfoldable pub save_session_state : ℕ → String → String → Store → Store
  save_session_state now session state s =
      set now (session_state session) state (some session_state_ttl) s

  unfoldable pub load_session_state : ℕ → String → Store → Option String
  load_session_state now session s = elim (get now (session_state session) s) [
    | none ↦ none
    | some v ↦ if str_eq v "" then none else some v
  ]

  -- delete_session_state: DEL of the three keys.
  unfoldable pub delete_session_state : String → Store → Store
  delete_session_state session s =
      delete (session_sequence session)
        (delete (session_lock session) (delete (session_state session) s))

  -- get_next_sequence.
  unfoldable pub get_next_sequence : ℕ → String → Store → Store × ℕ
  get_next_sequence now session s =
      let v = incr now (session_sequence session) 1 s in
      (
        expire now (session_sequence session) sequence_number_ttl v,
        counter now (session_sequence session) v,
      )
