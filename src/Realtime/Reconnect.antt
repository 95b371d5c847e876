-- ===== src/Realtime/Reconnect.antt =====
-- main.py, _run_session and _save_for_reconnect: the state that Redis keeps for a session while its
-- client is away, the connections that take it over, the sequence numbers of what they send, and the
-- reapers that fail the session of a client that stays away. Redis and the database answer; connection
-- ids, from uuid4, are counted; times are in seconds. What a connection sends and saves besides is
-- modelled in Transport, the manager's own transitions in Session.
pub mod Serial
pub mod Modes
pub mod Resumed
use praxis_interview_os.Base.{
  ℕ, suc, ◌+◌, Bool, true, false, not, List, [], ◌∷◌, ◌++◌, Option, none, some, ltb, leb, ◌==◌,
  ◌&&◌, filter, if◌then◌else◌,
}
use praxis_interview_os.Realtime.Session.{SessionState, failed, debrief, stopped, state_eq}

-- The column `status` of practice_sessions, as far as a connection reads or writes it.
pub data Status : Type 0 where
  created active completed failed_status : Status

unfoldable pub is_terminal : Status → Bool
is_terminal created = false
is_terminal active = false
is_terminal completed = true
is_terminal failed_status = true

-- The hash under the session's state key: its "state" is RECONNECTING or ACTIVE, and "sequence" is
-- missing where the hash was made anew by a claim.
pub record Saved : Type 0 where
  pub is_reconnecting : Bool
  pub conn_id : ℕ
  pub sequence : Option ℕ
  pub deadline : Option ℕ

-- A connection, with what it read when it came; `next` is seq["next"].
pub record Connection : Type 0 where
  pub conn_id : ℕ
  pub is_reconnect : Bool
  pub next : ℕ

-- A reaper that sleeps until `due`.
pub record Reaper : Type 0 where
  pub conn_id : ℕ
  pub due : ℕ

pub record World : Type 0 where
  pub now : ℕ
  pub next_id : ℕ
  pub key : Option Saved
  pub status : Status
  pub connections : List Connection
  pub reapers : List Reaper
  pub sent : List ℕ

-- WS_RECONNECT_GRACE_S, and how much longer the key is kept.
abbrev pub grace : ℕ
grace = 30

abbrev pub reap_margin : ℕ
reap_margin = 60

unfoldable pub is_alive : ℕ → Option ℕ → Bool
is_alive now none = true
is_alive now (some d) = ltb now d

-- HGETALL: an expired key is missing.
unfoldable pub hgetall : ℕ → Option Saved → Option Saved
unfolding is_alive
hgetall now none = none
hgetall now (some v) = if is_alive now v.deadline then some v else none

unfoldable pub is_waiting : Option Saved → Bool
is_waiting none = false
is_waiting (some v) = v.is_reconnecting

-- `int(cached.get("sequence") or 1)`.
unfoldable pub first_sequence : Option Saved → ℕ
first_sequence none = 1
first_sequence (some v) = elim (v.sequence) [ none ↦ 1 | some n ↦ n ]

-- The connection that comes now, with what it reads of the key.
unfoldable pub arriving : World → Connection
unfolding hgetall is_waiting first_sequence
arriving w =
    let cached = hgetall w.now w.key in
    record { conn_id = w.next_id; is_reconnect = is_waiting cached; next = first_sequence cached }

-- Steps 2 and 3 of _run_session: a session that is over is refused, else the connection is accepted.
unfoldable pub connect : World → World
unfolding arriving is_terminal
connect w =
    if is_terminal w.status
    then w
    else record w { connections = arriving w ∷ w.connections; next_id = suc w.next_id }

-- HSET of "state": "ACTIVE" and the connection's id, which leaves the other fields and the TTL.
unfoldable pub claimed_key : ℕ → ℕ → Option Saved → Option Saved
unfolding hgetall
claimed_key now id key = elim (hgetall now key) [
  | none ↦ some (record { is_reconnecting = false; conn_id = id; sequence = none; deadline = none })
  | some v ↦ some (record v { is_reconnecting = false; conn_id = id })
]

-- Step 5: a connection resumes the session or starts it.
unfoldable pub start : Connection → World → World
unfolding claimed_key
start c w =
    if c.is_reconnect
    then record w { key = claimed_key w.now c.conn_id w.key }
    else record w { status = active }

-- enqueue_event of an Envelope, by a connection.
unfoldable pub numbered : ℕ → Connection → Connection
numbered id c = if c.conn_id == id then record c { next = suc c.next } else c

unfoldable pub renumber : ℕ → List Connection → List Connection
unfolding numbered
renumber id [] = []
renumber id (c ∷ cs) = numbered id c ∷ renumber id cs

unfoldable pub enqueue : Connection → World → World
unfolding renumber
enqueue c w = record w { sent = c.next ∷ w.sent; connections = renumber c.conn_id w.connections }

-- `final_state in (STOPPED, FAILED, DEBRIEF)`.
unfoldable pub is_final : SessionState → Bool
unfolding state_eq
is_final s =
    if state_eq s stopped then true else if state_eq s failed then true else state_eq s debrief

unfoldable pub final_status : SessionState → Status
unfolding state_eq
final_status s = if state_eq s failed then failed_status else completed

unfoldable pub without : ℕ → List Connection → List Connection
without id cs = filter (λ d. not (d.conn_id == id)) cs

-- _save_for_reconnect, HSET, EXPIRE and the reaper.
unfoldable pub save_for_reconnect : Connection → World → World
save_for_reconnect c w = record w {
  key = some (record {
    is_reconnecting = true;
    conn_id = c.conn_id;
    sequence = some c.next;
    deadline = some (w.now + (grace + reap_margin));
  });
  reapers = (record { conn_id = c.conn_id; due = w.now + grace }) ∷ w.reapers;
}

-- What follows a connection's end in a state of its interview.
unfoldable pub disconnect : Connection → SessionState → World → World
unfolding is_final final_status without save_for_reconnect
disconnect c final_state w =
    let left = record w { connections = without c.conn_id w.connections } in
    if is_final final_state
    then record left { status = final_status final_state; key = none }
    else save_for_reconnect c left

-- What a reaper looks for: nobody has come back since its connection ended.
unfoldable pub is_left_by : ℕ → Option Saved → Bool
is_left_by id none = false
is_left_by id (some v) = v.is_reconnecting && v.conn_id == id

unfoldable pub is_abandoned : Reaper → World → Bool
unfolding hgetall is_left_by
is_abandoned r w = is_left_by r.conn_id (hgetall w.now w.key)

-- reap_if_not_reconnected, after its sleep.
unfoldable pub reap : Reaper → World → World
unfolding is_abandoned
reap r w = if is_abandoned r w then record w { status = failed_status; key = none } else w

abbrev pub passes : ℕ → World → World
passes d w = record w { now = w.now + d }

-- The world in which a session has been created.
abbrev pub initial : World
initial = record {
  now = 0;
  next_id = 0;
  key = none;
  status = created;
  connections = [];
  reapers = [];
  sent = [];
}
