-- ===== src/Realtime/Session.antt =====
-- session/state_machine.py and session/manager.py: the states of a live interview, the table of
-- legal transitions, and the manager that applies one, writes its audit row and announces it.
pub mod Table
pub mod Audit
use Prim.Native.String.{◌++◌ as str_append}
use praxis_interview_os.Base.{
  ℕ, suc, Bool, true, false, List, [], ◌∷◌, Option, none, some, String, str_eq, if◌then◌else◌, ◌||◌,
}

pub data SessionState : Type 0 where
  idle preflight warming ready interviewer_turn awaiting_answer candidate_turn yielding :
      SessionState
  turn_end scoring planning_next debrief : SessionState
  degraded_stt degraded_llm degraded_tts reconnecting paused failed stopped : SessionState

pub SessionState-discrete : Discrete SessionState
SessionState-discrete = hlevel

unfoldable pub state_eq : SessionState → SessionState → Bool
unfolding SessionState-discrete
state_eq s t = elim (SessionState-discrete s t) [ yes _ ↦ true | no _ ↦ false ]

-- TRANSITIONS.
unfoldable pub transitions : SessionState → List SessionState
transitions idle = preflight ∷ failed ∷ stopped ∷ []
transitions preflight = warming ∷ failed ∷ stopped ∷ reconnecting ∷ []
transitions warming = ready ∷ failed ∷ stopped ∷ reconnecting ∷ []
transitions ready = interviewer_turn ∷ debrief ∷ paused ∷ failed ∷ stopped ∷ reconnecting ∷ []
transitions interviewer_turn =
    yielding ∷ awaiting_answer ∷ degraded_tts ∷ degraded_llm ∷ debrief ∷ failed ∷ stopped
    ∷ reconnecting ∷ []
transitions awaiting_answer =
    candidate_turn ∷ turn_end ∷ paused ∷ debrief ∷ failed ∷ stopped ∷ reconnecting ∷ []
transitions candidate_turn =
    yielding ∷ turn_end ∷ degraded_stt ∷ debrief ∷ failed ∷ stopped ∷ reconnecting ∷ []
transitions yielding =
    interviewer_turn ∷ awaiting_answer ∷ turn_end ∷ failed ∷ stopped ∷ reconnecting ∷ []
transitions turn_end =
    scoring ∷ awaiting_answer ∷ planning_next ∷ failed ∷ stopped ∷ reconnecting ∷ []
transitions scoring = planning_next ∷ degraded_llm ∷ failed ∷ stopped ∷ reconnecting ∷ []
transitions planning_next = ready ∷ degraded_llm ∷ debrief ∷ failed ∷ stopped ∷ reconnecting ∷ []
transitions degraded_stt = turn_end ∷ debrief ∷ failed ∷ stopped ∷ reconnecting ∷ []
transitions degraded_llm =
    ready ∷ planning_next ∷ awaiting_answer ∷ debrief ∷ failed ∷ stopped ∷ reconnecting ∷ []
transitions degraded_tts = awaiting_answer ∷ debrief ∷ failed ∷ stopped ∷ reconnecting ∷ []
transitions reconnecting =
    preflight ∷ warming ∷ ready ∷ interviewer_turn ∷ awaiting_answer ∷ candidate_turn ∷ yielding
    ∷ turn_end ∷ scoring ∷ planning_next ∷ debrief ∷ failed ∷ stopped ∷ []
transitions paused = ready ∷ awaiting_answer ∷ debrief ∷ stopped ∷ failed ∷ reconnecting ∷ []
transitions debrief = stopped ∷ failed ∷ reconnecting ∷ []
transitions failed = []
transitions stopped = []

unfoldable pub contains : List SessionState → SessionState → Bool
unfolding state_eq
contains [] t = false
contains (s ∷ ss) t = state_eq s t || contains ss t

-- `to_state in TRANSITIONS.get(self.state, set())`.
unfoldable pub can_transition : SessionState → SessionState → Bool
unfolding transitions contains
can_transition s t = contains (transitions s) t

-- StateMachine.transition: the new state, or `none` for InvalidTransitionError (the machine then
-- keeps its state). The tracing span is left out.
unfoldable pub transition : SessionState → SessionState → Option SessionState
unfolding can_transition
transition s t = if can_transition s t then some t else none

-- One row of session_state_log.
pub record LogRow : Type 0 where
  pub from_state : SessionState
  pub to_state : SessionState
  pub reason : String

pub data SessionStatus : Type 0 where
  completed failure : SessionStatus

-- What the outbound queue is given by the manager.
pub record Transitioned : Type 0 where
  pub from_state : SessionState
  pub to_state : SessionState
  pub reason : String

-- The manager with the tables it writes. `db_up n` says whether the n-th write of the session is
-- committed, and `writes` counts the attempts so far.
pub record Manager : Type 0 where
  pub state : SessionState
  pub log : List LogRow
  pub status : Option SessionStatus
  pub events : List Transitioned
  pub db_up : ℕ → Bool
  pub writes : ℕ

-- SessionManager.__init__.
unfoldable pub new_manager : (ℕ → Bool) → Manager
new_manager db_up = record {
  state = idle;
  log = [];
  status = none;
  events = [];
  db_up = db_up;
  writes = 0;
}

-- A failed write is rolled back and swallowed; rows are kept newest first.
unfoldable pub log_transition : Manager → SessionState → SessionState → String → Manager
log_transition m s t reason = record m {
  log =
      if m.db_up m.writes
      then record { from_state = s; to_state = t; reason = reason } ∷ m.log
      else m.log;
  writes = suc m.writes;
}

unfoldable pub persist_terminal_status : Manager → SessionStatus → Manager
persist_terminal_status m st = record m {
  status = if m.db_up m.writes then some st else m.status;
  writes = suc m.writes;
}

-- `reason or "valid"`.
unfoldable pub or_valid : String → String
or_valid reason = if str_eq reason "" then "valid" else reason

-- The status write that follows the row of a transition into STOPPED or FAILED.
unfoldable pub close_if_terminal : Manager → SessionState → Manager
unfolding persist_terminal_status
close_if_terminal m stopped = persist_terminal_status m completed
close_if_terminal m failed = persist_terminal_status m failure
close_if_terminal m _ = m

unfoldable pub announce : Manager → SessionState → SessionState → String → Manager
announce m s t reason = record m {
  events = record { from_state = s; to_state = t; reason = reason } ∷ m.events;
}

-- SessionManager.transition: `false` stands for the InvalidTransitionError that is raised again
-- after the rejection was logged.
unfoldable pub manage : Manager → SessionState → String → Manager × Bool
unfolding transition log_transition or_valid close_if_terminal announce
manage m t reason = elim (transition m.state t) [
  | none ↦ (log_transition m m.state t (str_append "rejected: " reason), false)
  | some s ↦ (
    announce
        (close_if_terminal (log_transition (record m { state = s }) m.state t (or_valid reason)) t)
        m.state t reason,
    true,
  )
]

-- SessionManager.try_transition: the exception becomes `False`.
unfoldable pub try_transition : Manager → SessionState → String → Manager × Bool
unfolding manage
try_transition m t reason = manage m t reason

-- A session's life: the transitions that the rest of the process asks for, in order.
unfoldable pub run : Manager → List (SessionState × String) → Manager
unfolding manage
run m [] = m
run m ((t, reason) ∷ rest) = run (manage m t reason).0 rest
