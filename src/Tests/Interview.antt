-- ===== src/Tests/Interview.antt =====
-- Runs of one interview, in which the language model, the scoring and the speech synthesis fail.
use praxis_interview_os.Base.{
  ◌++◌, ◌+◌, ◌≤◌, ◌<◌, ◌≡◌, refl, ◌⊎◌, inl, true, false, List, [], ◌∷◌, none, some, arith, min,
  length,
}
use praxis_interview_os.Realtime.Session.{
  SessionState, awaiting_answer, candidate_turn, scoring as scoring_state, stopped, new_manager,
}
use praxis_interview_os.Realtime.Generation.{no_generation}
use praxis_interview_os.Realtime.Coaching.{new_coaching}
use praxis_interview_os.Realtime.Policy.{InterviewSession, new_memory}
use praxis_interview_os.Realtime.Policy.Memory.{Answer, converse, converse_bounded}
use praxis_interview_os.Realtime.TurnDetection.{complete, silence_threshold_ms}
use praxis_interview_os.Realtime.Orchestrator.{Outside, Orchestrator, speech_fails, nudge}
use praxis_interview_os.Realtime.Orchestrator.Turns.{
  is_over, end_session_and_debrief, on_candidate_turn_end, handle_vad_silence,
  handle_no_answer_timeout,
}
use praxis_interview_os.Realtime.Orchestrator.Turns.Progress.{state}
use praxis_interview_os.Realtime.Orchestrator.Turns.Announced.{Announces}
use praxis_interview_os.Realtime.Orchestrator.Turns.Settled.{
  skipped, debriefs_told, Settled, turn_end_settles, silence_settles, timeout_settles,
  end_stops_once,
}

abbrev pub failing : Outside
failing = record {
  clock = λ n. n;
  uuid = λ n. "id";
  select_ok = λ n. true;
  write_ok = λ n. false;
  policy = λ n. record { summary = none; decision = none };
  summary = λ n. none;
  completeness = λ n. some complete;
  is_question = λ n. none;
  score = λ n. none;
  claims_ok = λ n. false;
  chunks = λ n. 1;
  speech = λ n. speech_fails;
  debrief_ok = λ n. false;
}

abbrev interview : InterviewSession
interview = record {
  memory = new_memory;
  prep_pack = "Tell me about a project." ∷ "Why this one?" ∷ [];
  current_question_idx = 1;
}

abbrev pub in_state : SessionState → Orchestrator
in_state s = record {
  manager = record (new_manager (λ n. true)) { state = s };
  session = interview;
  generations = no_generation;
  coaching = new_coaching;
  current_candidate_answer = "";
  last_interviewer_question = "Tell me about a project.";
  last_interviewer_turn_id = some "t0";
  awaiting_since = none;
  nudges_sent = 0;
  degraded_components = [];
  pending_segments = [];
  turn_lock = false;
  turn_rows = [];
  segment_rows = [];
  score_rows = [];
  events = [];
  calls = 0;
}

turn_end_settles_example :
    let v = on_candidate_turn_end failing "I built a compiler." (in_state candidate_turn) in
    Settled v × (v.turn_lock ≡ false)
turn_end_settles_example =
    turn_end_settles failing "I built a compiler." (in_state candidate_turn) (inl refl) refl

silence_settles_example :
    let v = handle_vad_silence failing 900 "I built a compiler." (in_state candidate_turn) in
    ((silence_threshold_ms ≤ 900) × Settled v) ⊎ (state v ≡ candidate_turn)
silence_settles_example =
    silence_settles failing 900 "I built a compiler." (in_state candidate_turn) (inl refl) refl

timeout_settles_example :
    let o = in_state awaiting_answer in
    let v = handle_no_answer_timeout failing 0 o in
    ((0 < 0) × (v.manager ≡ o.manager) × (v.nudges_sent ≡ 0 + 1) × (v.events ≡ nudge ∷ []))
    ⊎ ((0 ≤ o.nudges_sent) × Settled v × Announces (skipped ++ o.manager.events) v.manager.events)
timeout_settles_example = timeout_settles failing 0 (in_state awaiting_answer) refl

end_stops_once_example :
    let o = in_state scoring_state in
    let v = end_session_and_debrief failing o in
    (end_session_and_debrief failing v ≡ v)
    × (((is_over failing scoring_state ≡ false)
          × (state v ≡ stopped)
          × (debriefs_told v.events ≡ debriefs_told o.events + 1))
        ⊎ ((is_over failing scoring_state ≡ true) × (v ≡ o)))
end_stops_once_example = end_stops_once failing (in_state scoring_state)

abbrev answers : List Answer
answers =
    (
      "one",
      record {
        summary = none;
        decision = some (record { is_clarifying_follow_up = true; response_text = "How?" });
      },
    )
    ∷ ("two", record { summary = none; decision = none })
    ∷ (
      "three",
      record {
        summary = none;
        decision = some (record { is_clarifying_follow_up = false; response_text = "Next." });
      },
    )
    ∷ []

converse_bounded_example :
    let v = converse interview answers in
    (length v.memory.turns ≤ 7)
    × (v.prep_pack ≡ interview.prep_pack)
    × (v.current_question_idx ≡ min 2 (1 + 1))
unfolding new_memory
converse_bounded_example = converse_bounded interview answers refl (omega arith) (omega arith)
