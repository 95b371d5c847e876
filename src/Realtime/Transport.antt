-- ===== src/Realtime/Transport.antt =====
-- main.py, _run_session: how a connection starts or resumes an interview, and what the client's text
-- messages do. A step that the code spawns as a task is run here to its end before the next message.
-- The exceptions of SessionManager.transition are not raised on the paths below.
pub mod Resumption
use praxis_interview_os.Base.{
  ℕ, ◌-◌, ◌==◌, Bool, true, false, not, List, Option, none, some, String, str_eq, if◌then◌else◌,
}
use praxis_interview_os.Realtime.Session.{
  SessionState, preflight, warming, ready, interviewer_turn, awaiting_answer, candidate_turn,
  reconnecting, paused, state_eq, manage, try_transition,
}
use praxis_interview_os.Realtime.Orchestrator.{
  interviewer_text, Outside, Orchestrator, enqueue_event, to,
}
use praxis_interview_os.Realtime.Orchestrator.Asking.{begin_interviewer_turn}
use praxis_interview_os.Realtime.Orchestrator.Turns.{
  start_candidate_turn, end_session_and_debrief, on_candidate_turn_end,
}

-- SessionOrchestrator.snapshot, as it is kept in Redis while the client is away.
pub record Snapshot : Type 0 where
  pub current_question_idx : ℕ
  pub last_interviewer_question : String
  pub last_interviewer_turn_id : String

unfoldable pub snapshot : Orchestrator → Snapshot
snapshot o = record {
  current_question_idx = o.session.current_question_idx;
  last_interviewer_question = o.last_interviewer_question;
  last_interviewer_turn_id = elim (o.last_interviewer_turn_id) [ none ↦ "" | some id ↦ id ];
}

-- SessionOrchestrator.restore.
unfoldable pub restore : Snapshot → Orchestrator → Orchestrator
restore saved o = record o {
  session = record (o.session) { current_question_idx = saved.current_question_idx };
  last_interviewer_question = saved.last_interviewer_question;
  last_interviewer_turn_id =
      if str_eq saved.last_interviewer_turn_id ""
      then none
      else some saved.last_interviewer_turn_id;
}

-- `text[:n]`, by characters.
unfoldable pub first_chars : String → ℕ → String
first_chars String.[] n = ""
first_chars (String.◌∷◌ c s) n =
    let rest = first_chars s (n - 1) in if n == 0 then "" else String.◌∷◌ c rest

-- The text frames that are told apart by their type, with what the code reads of their payloads.
pub data ClientMessage : Type 0 where
  auth playback_stopped session_end session_pause session_resume : ClientMessage
  text_answer : String → ClientMessage
  unknown_type : ClientMessage

-- The `session.error` that answers a message, if any.
pub data MessageError : Type 0 where
  invalid_state unknown_message_type : MessageError

module _ (env : Outside) where
  abbrev move : SessionState → String → Orchestrator → Orchestrator
  move s reason o = record o { manager = (manage o.manager s reason).0 }

  -- The start of a new connection, after the status of its row is set.
  unfoldable pub start : Orchestrator → Orchestrator
  unfolding manage begin_interviewer_turn
  start o =
      begin_interviewer_turn env false none (move ready "" (move warming "" (move preflight "" o)))

  -- The resumption of a session from its snapshot: the last question is sent again, if there is one.
  unfoldable pub resume : Snapshot → Orchestrator → Orchestrator
  unfolding restore manage to begin_interviewer_turn
  resume cached o =
      let v = restore cached o in
      let back =
        move ready "reconnected"
          (record v { manager = record (v.manager) { state = reconnecting } }) in
      if str_eq back.last_interviewer_question ""
      then begin_interviewer_turn env false none back
      else (to env awaiting_answer "resume" (
          move interviewer_turn "resume"
            (enqueue_event env (interviewer_text back.last_interviewer_question) back))).0

  -- `candidate.text_answer`: the turn begins, if it has not, and ends.
  unfoldable pub begin_answer : Orchestrator → Orchestrator
  unfolding state_eq start_candidate_turn
  begin_answer o =
      if state_eq o.manager.state awaiting_answer then start_candidate_turn env o else o

  unfoldable pub end_answer : String → Orchestrator → Orchestrator
  unfolding state_eq on_candidate_turn_end
  end_answer answer o =
      if state_eq o.manager.state candidate_turn then on_candidate_turn_end env answer o else o

  -- One text message.
  unfoldable pub receive_message : ClientMessage → Orchestrator → Orchestrator × Option MessageError
  unfolding first_chars end_session_and_debrief try_transition state_eq to begin_answer end_answer
  receive_message auth o = (o, none)
  receive_message playback_stopped o = (o, none)
  receive_message session_end o = (end_session_and_debrief env o, none)
  receive_message session_pause o =
      let (m, ok) = try_transition o.manager paused "client_pause" in
      (record o { manager = m }, if ok then none else some invalid_state)
  receive_message session_resume o = (
    if state_eq o.manager.state paused then (to env awaiting_answer "client_resume" o).0 else o,
    none,
  )
  receive_message (text_answer text) o =
      (end_answer (first_chars text 10_000) (begin_answer o), none)
  receive_message unknown_type o = (o, some unknown_message_type)
