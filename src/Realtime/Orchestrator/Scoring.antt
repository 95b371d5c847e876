-- ===== src/Realtime/Orchestrator/Scoring.antt =====
-- session/orchestrator.py, _on_candidate_turn_end: what is done with the candidate's answer.
use Prim.Native.String.{◌++◌ as str_append}
use praxis_interview_os.Base.{
  Bool, true, ◌∷◌, Option, none, some, String, ltb, length, strip, if◌then◌else◌,
}
use praxis_interview_os.Realtime.Session.{scoring as scoring_state, degraded_llm}
use praxis_interview_os.Realtime.Coaching.{end_turn}
use praxis_interview_os.Realtime.Policy.{compress}
use praxis_interview_os.Realtime.Orchestrator.{
  classifier, claims, scoring, AnswerScore, scoring_result, Outside, Orchestrator, enqueue_event,
  called, to, note_degraded, insert_turn, flush_segments,
}

module _ (env : Outside) where
  -- The scoring half of _on_candidate_turn_end, after the claims.
  unfoldable pub record_score : Option String → Option AnswerScore → Orchestrator → Orchestrator
  unfolding note_degraded to
  record_score turn_id none o =
      (to env degraded_llm "scoring_failed" (note_degraded env scoring o)).0
  record_score turn_id (some score) o =
      let v : Orchestrator = elim turn_id [
        | none ↦ o
        | some id ↦ record (called env o) {
          score_rows = if env.write_ok o.calls then (id, score) ∷ o.score_rows else o.score_rows;
        }
      ] in
      elim (score.overall) [
        | none ↦ v
        | some overall ↦ enqueue_event env (scoring_result turn_id overall) v
      ]

  -- The claims of _on_candidate_turn_end: extracted only if the turn has a row.
  unfoldable pub check_claims : Option String → Orchestrator → Orchestrator
  unfolding note_degraded
  check_claims none o = o
  check_claims (some id) o =
      if env.claims_ok o.calls then called env o else note_degraded env claims (called env o)

  -- Scoring and claims run together; an exception of either is noted, that of the claims first.
  unfoldable pub score_turn : Orchestrator → Orchestrator
  unfolding to insert_turn flush_segments check_claims record_score
  score_turn o =
      let v = (to env scoring_state "" o).0 in
      let (w, turn_id) =
        insert_turn env "candidate" v.current_candidate_answer v.last_interviewer_turn_id v in
      let x : Orchestrator = elim turn_id [ none ↦ w | some id ↦ flush_segments env id w ] in
      record_score turn_id (env.score x.calls) (check_claims turn_id (called env x))

  -- The compression of the memory in _on_candidate_turn_end; compress itself never raises.
  unfoldable pub compress_memory : Orchestrator → Orchestrator
  unfolding compress
  compress_memory o =
      if ltb o.session.memory.turn_count_threshold (length o.session.memory.turns)
      then record (called env o) {
        session = record (o.session) { memory = compress (env.summary o.calls) o.session.memory };
      }
      else o

  -- `classify`, with an exception taken as an answer.
  unfoldable pub classify : Orchestrator → Orchestrator × Bool
  unfolding note_degraded
  classify o = elim (env.is_question o.calls) [
    | some b ↦ (called env o, b)
    | none ↦ (note_degraded env classifier (called env o), true)
  ]

  -- The answer as it stands at the head of _on_candidate_turn_end.
  unfoldable pub answered : String → Orchestrator → Orchestrator
  unfolding end_turn strip
  answered final_text o = record o {
    coaching = end_turn o.coaching;
    current_candidate_answer =
        strip (str_append o.current_candidate_answer (str_append " " final_text));
  }
