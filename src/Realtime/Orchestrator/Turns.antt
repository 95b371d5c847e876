-- ===== src/Realtime/Orchestrator/Turns.antt =====
-- session/orchestrator.py: the turns of an interview, its timeouts and its end.
pub mod Progress
pub mod Kept
pub mod Announced
pub mod Finished
pub mod Settled
pub mod Ended
use Prim.Native.String.{◌++◌ as str_append}
use praxis_interview_os.Base.{
  ℕ, suc, ◌+◌, Bool, true, false, not, ◌&&◌, ◌||◌, List, [], ◌∷◌, ◌++◌, Option, none, some, String,
  ltb, leb, is_empty, length, get_elem?, strip, if◌then◌else◌,
}
use praxis_interview_os.Realtime.Session.{
  SessionState, ready, interviewer_turn, awaiting_answer, candidate_turn, yielding, turn_end,
  scoring as scoring_state, planning_next, debrief, degraded_llm, degraded_tts, failed, stopped,
  state_eq, manage,
}
use praxis_interview_os.Realtime.Generation.{start_generation, cancel_current, is_cancelled}
use praxis_interview_os.Realtime.Coaching.{start_turn, end_turn, register_vad_event, update_text}
use praxis_interview_os.Realtime.Policy.{
  PolicyDecision, InterviewSession, generate_next_turn, compress,
}
use praxis_interview_os.Realtime.TurnDetection.{evaluate, TurnEndDecision}
use praxis_interview_os.Realtime.Orchestrator.{
  Component, turn_detection, llm, tts, classifier, claims, scoring, memory, debriefing, AnswerScore,
  interviewer_text, nudge, audio_chunk, stop_playback, scoring_result, debrief_ready, SpeechEnd,
  spoken, speech_fails, barged_in, Outside, Orchestrator, enqueue_event, called, to, note_degraded,
  insert_turn, flush_segments,
}
use praxis_interview_os.Realtime.Orchestrator.Asking.{begin_interviewer_turn}
use praxis_interview_os.Realtime.Orchestrator.Scoring.{
  score_turn, compress_memory, classify, answered,
}

module _ (env : Outside) where
  -- start_candidate_turn.
  unfoldable pub start_candidate_turn : Orchestrator → Orchestrator
  unfolding to start_turn
  start_candidate_turn o =
      let (v, ok) = to env candidate_turn "" o in
      if ok
      then record v {
        awaiting_since = none;
        nudges_sent = 0;
        coaching = start_turn (env.clock v.calls) v.coaching;
      }
      else v

  -- handle_vad_event, handle_transcript_update and record_final_segment.
  unfoldable pub handle_vad_event : String → Orchestrator → Orchestrator
  unfolding register_vad_event
  handle_vad_event evt o = record o {
    coaching = register_vad_event (env.clock o.calls) evt o.coaching;
  }

  unfoldable pub handle_transcript_update : String → Orchestrator → Orchestrator
  unfolding update_text
  handle_transcript_update text o = record o { coaching = update_text text o.coaching }

  unfoldable pub record_final_segment : String → Orchestrator → Orchestrator
  record_final_segment seg o = record o { pending_segments = o.pending_segments ++ seg ∷ [] }

  -- The test at the head of end_session_and_debrief.
  unfoldable pub is_over : SessionState → Bool
  unfolding state_eq
  is_over s = state_eq s debrief || state_eq s stopped || state_eq s failed

  -- The rest of end_session_and_debrief; the payload of debrief.ready is its status.
  unfoldable pub run_debrief : Orchestrator → Orchestrator
  unfolding cancel_current to note_degraded
  run_debrief o =
      let cut = record o { generations = cancel_current o.generations "session_end" } in
      let v = (to env debrief "" cut).0 in
      let ok = env.debrief_ok v.calls in
      let w = if ok then called env v else note_degraded env debriefing (called env v) in
      enqueue_event env (debrief_ready ok) (to env stopped "" w).0

  -- end_session_and_debrief.
  unfoldable pub end_session_and_debrief : Orchestrator → Orchestrator
  unfolding is_over run_debrief
  end_session_and_debrief o = if is_over o.manager.state then o else run_debrief o

  -- _advance.
  unfoldable pub advance : Orchestrator → Orchestrator
  unfolding to end_session_and_debrief begin_interviewer_turn
  advance o =
      let v = (to env ready "" o).0 in
      if leb (length v.session.prep_pack) v.session.current_question_idx
        && ltb 0 (length v.session.prep_pack)
      then end_session_and_debrief v
      else begin_interviewer_turn env false none v

  -- _on_candidate_turn_end.
  unfoldable pub finish_candidate_turn : String → Orchestrator → Orchestrator
  unfolding to answered classify score_turn compress_memory advance
  finish_candidate_turn final_text o =
      let (w, is_answer) = classify env (answered env final_text (to env turn_end "" o).0) in
      if not is_answer
      then (to env awaiting_answer "" w).0
      else advance (compress_memory env (to env planning_next "" (score_turn env w)).0)

  -- on_candidate_turn_end: a turn end that is being processed is not processed again.
  unfoldable pub on_candidate_turn_end : String → Orchestrator → Orchestrator
  unfolding finish_candidate_turn
  on_candidate_turn_end final_text o =
      if o.turn_lock
      then o
      else record (finish_candidate_turn final_text (record o { turn_lock = true })) {
        turn_lock = false;
      }

  -- handle_vad_silence.
  unfoldable pub handle_vad_silence : ℕ → String → Orchestrator → Orchestrator
  unfolding evaluate note_degraded on_candidate_turn_end
  handle_vad_silence silence_ms partial o = elim (env.completeness o.calls) [
    | some answer ↦
        if (evaluate answer silence_ms partial).is_turn_end
        then on_candidate_turn_end partial (called env o)
        else called env o
    | none ↦
        if leb 1500 silence_ms
        then on_candidate_turn_end partial (note_degraded env turn_detection (called env o))
        else note_degraded env turn_detection (called env o)
  ]

  -- The end of handle_no_answer_timeout, when no nudge is left: an empty turn is written.
  unfoldable pub skip_turn : Orchestrator → Orchestrator
  unfolding to insert_turn advance
  skip_turn o =
      let (v, ok) = to env turn_end "no_answer_timeout" (record o { nudges_sent = 0 }) in
      if not ok
      then v
      else advance
          (to env planning_next "no_answer_timeout"
            (insert_turn env "candidate" "" v.last_interviewer_turn_id v).0).0

  -- handle_no_answer_timeout.
  unfoldable pub handle_no_answer_timeout : ℕ → Orchestrator → Orchestrator
  unfolding state_eq skip_turn
  handle_no_answer_timeout max_nudges o =
      if not (state_eq o.manager.state awaiting_answer)
      then o
      else (if ltb o.nudges_sent max_nudges
          then enqueue_event env nudge (record (called env o) {
            nudges_sent = o.nudges_sent + 1;
            awaiting_since = some (env.clock o.calls);
          })
          else skip_turn o)
