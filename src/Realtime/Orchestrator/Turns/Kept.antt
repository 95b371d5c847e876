-- ===== src/Realtime/Orchestrator/Turns/Kept.antt =====
-- What the steps of an answer's scoring leave alone: the session's state.
use praxis_interview_os.Base.{◌≡◌, refl, Option, none, some, String, arith}
use praxis_interview_os.Realtime.Orchestrator.{
  claims, classifier, AnswerScore, Outside, Orchestrator, called, flush_segments,
}
use praxis_interview_os.Realtime.Orchestrator.Scoring.{
  record_score, check_claims, compress_memory, classify, answered,
}
use praxis_interview_os.Realtime.Orchestrator.Turns.Progress.{note_state, flush_state}

module _ (env : Outside) where
  pub store_score :
      (turn_id : Option String) (score : AnswerScore) (o : Orchestrator)
      → (record_score env turn_id (some score) o).manager ≡ o.manager
  unfolding record_score
  store_score turn_id score o = ground arith

  pub claims_state :
      (turn_id : Option String) (o : Orchestrator)
      → (check_claims env turn_id o).manager ≡ o.manager
  unfolding check_claims
  claims_state none o = refl
  claims_state (some id) o = ground (arith, note_state env claims (called env o))

  pub flushed :
      (turn_id : Option String) (o : Orchestrator)
      → (elim turn_id as (λ _. Orchestrator) [
        | none ↦ o
        | some id ↦ flush_segments env id o
      ]).manager
        ≡ o.manager
  flushed none o = refl
  flushed (some id) o = flush_state env id o

  pub compress_state : (o : Orchestrator) → (compress_memory env o).manager ≡ o.manager
  unfolding compress_memory
  compress_state o = ground arith

  pub classify_state : (o : Orchestrator) → (classify env o).0.manager ≡ o.manager
  unfolding classify
  classify_state o = ground (arith, note_state env classifier (called env o))

  pub answered_state :
      (text : String) (o : Orchestrator) → (answered env text o).manager ≡ o.manager
  unfolding answered
  answered_state text o = refl
