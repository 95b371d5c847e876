-- ===== src/Realtime/Orchestrator/Turns/Finished.antt =====
-- That the end of a turn, and what comes after it, adds announcements.
use praxis_interview_os.Base.{
  ◌≡◌, refl, ap, subst, ◌∙◌, Bool, true, false, ◌&&◌, List, [], ◌∷◌, Option, none, some, String,
  Bool-cases, inl, inr, if◌then◌else◌, ltb, leb, length,
}
use praxis_interview_os.Realtime.Session.{
  SessionState, ready, awaiting_answer, turn_end, scoring as scoring_state, planning_next, debrief,
  degraded_llm, stopped, transition, Transitioned, Manager,
}
use praxis_interview_os.Realtime.Generation.{cancel_current}
use praxis_interview_os.Realtime.Orchestrator.{
  scoring, debriefing, AnswerScore, Outside, Orchestrator, called, to, note_degraded, insert_turn,
  flush_segments,
}
use praxis_interview_os.Realtime.Orchestrator.Asking.{begin_interviewer_turn}
use praxis_interview_os.Realtime.Orchestrator.Scoring.{
  record_score, check_claims, score_turn, compress_memory, classify, answered,
}
use praxis_interview_os.Realtime.Orchestrator.Turns.{
  is_over, run_debrief, end_session_and_debrief, advance, finish_candidate_turn,
}
use praxis_interview_os.Realtime.Orchestrator.Turns.Progress.{state, note_state, insert_state}
use praxis_interview_os.Realtime.Orchestrator.Turns.Kept.{
  store_score, claims_state, flushed, compress_state, classify_state, answered_state,
}
use praxis_interview_os.Realtime.Orchestrator.Turns.Announced.{
  change, Announces, same-Announces, Announces-trans, to_told, to-Announces, begin-Announces,
}

module _ (env : Outside) where
  noted :
      (o : Orchestrator) (ok : Bool)
      → (if ok then called env o else note_degraded env debriefing (called env o)).manager
        ≡ o.manager
  noted o true = refl
  noted o false = note_state env debriefing (called env o)

  end-Announces :
      (o : Orchestrator) → Announces o.manager.events (end_session_and_debrief env o).manager.events
  unfolding end_session_and_debrief run_debrief
  end-Announces o = elim (Bool-cases (is_over env o.manager.state)) [
    | inl e ↦ rw (e, end_session_and_debrief) ([], refl)
    | inr e ↦
        let cut : Orchestrator = record o {
          generations = cancel_current o.generations "session_end";
        } in
        let v = (to env debrief "" cut).0 in
        let w =
          if env.debrief_ok v.calls
          then called env v
          else note_degraded env debriefing (called env v) in
        rw (e, end_session_and_debrief)
          (Announces-trans o.manager.events w.manager.events
            (Announces-trans o.manager.events v.manager.events (to-Announces env debrief "" cut)
              (same-Announces v.manager w.manager (noted v (env.debrief_ok v.calls))))
            (to-Announces env stopped "" w))
  ]

  -- The next question or the end of the interview comes after READY is announced.
  pub advance-Announces :
      (o : Orchestrator)
      → state o ≡ planning_next
      → Announces (change planning_next ready "" ∷ o.manager.events) (advance env o).manager.events
  unfolding advance transition
  advance-Announces o at =
      let v = (to env ready "" o).0 in
      let told : v.manager.events ≡ change planning_next ready "" ∷ o.manager.events =
        to_told env o ready "" at refl in
      elim (Bool-cases (
        leb (length v.session.prep_pack) v.session.current_question_idx
        && ltb 0 (length v.session.prep_pack))) [
          | inl e ↦
              rw (e, advance)
                (subst
                  (λ (x : List Transitioned).
                    Announces x (end_session_and_debrief env v).manager.events)
                  told (end-Announces v))
          | inr e ↦
              rw (e, advance)
                (subst
                  (λ (x : List Transitioned).
                    Announces x (begin_interviewer_turn env false none v).manager.events)
                  told (begin-Announces env false none v))
        ]

  advance-grows : (o : Orchestrator) → Announces o.manager.events (advance env o).manager.events
  unfolding advance
  advance-grows o =
      let v = (to env ready "" o).0 in
      elim (Bool-cases (
        leb (length v.session.prep_pack) v.session.current_question_idx
        && ltb 0 (length v.session.prep_pack))) [
          | inl e ↦
              rw (e, advance)
                (Announces-trans o.manager.events v.manager.events (to-Announces env ready "" o)
                  (end-Announces v))
          | inr e ↦
              rw (e, advance)
                (Announces-trans o.manager.events v.manager.events (to-Announces env ready "" o)
                  (begin-Announces env false none v))
        ]

  record-Announces :
      (turn_id : Option String) (score : Option AnswerScore) (o : Orchestrator)
      → Announces o.manager.events (record_score env turn_id score o).manager.events
  unfolding record_score
  record-Announces turn_id none o =
      let v = note_degraded env scoring o in
      Announces-trans o.manager.events v.manager.events
        (same-Announces o.manager v.manager (note_state env scoring o))
        (to-Announces env degraded_llm "scoring_failed" v)
  record-Announces turn_id (some score) o =
      same-Announces o.manager (record_score env turn_id (some score) o).manager
        (store_score env turn_id score o)

  score-Announces :
      (o : Orchestrator) → Announces o.manager.events (score_turn env o).manager.events
  unfolding score_turn
  score-Announces o =
      let v = (to env scoring_state "" o).0 in
      let w = insert_turn env "candidate" v.current_candidate_answer v.last_interviewer_turn_id v in
      let x = elim w.1 as (λ _. Orchestrator) [
        | none ↦ w.0
        | some id ↦ flush_segments env id w.0
      ] in
      let y = check_claims env w.1 (called env x) in
      Announces-trans o.manager.events y.manager.events
        (Announces-trans o.manager.events v.manager.events (to-Announces env scoring_state "" o) (
          same-Announces v.manager y.manager (
            claims_state env w.1 (called env x)
            ∙ flushed env w.1 w.0
            ∙ insert_state env "candidate" v.current_candidate_answer v.last_interviewer_turn_id
                v)))
        (record-Announces w.1 (env.score x.calls) y)

  -- The end of a candidate's turn is announced, and then what comes of it.
  pub finish-Announces :
      (text : String) (o : Orchestrator) {s : SessionState}
      → state o ≡ s
      → transition s turn_end ≡ some turn_end
      → Announces
          (change s turn_end "" ∷ o.manager.events)
          (finish_candidate_turn env text o).manager.events
  unfolding finish_candidate_turn
  finish-Announces text o {s} at ok =
      let u = (to env turn_end "" o).0 in
      let w = (classify env (answered env text u)).0 in
      let same : w.manager.events ≡ change s turn_end "" ∷ o.manager.events =
        ap (λ (m : Manager). m.events)
          (classify_state env (answered env text u) ∙ answered_state env text u)
        ∙ to_told env o turn_end "" at ok in
      elim (Bool-cases (classify env (answered env text u)).1) [
        | inr e ↦
            rw (e, finish_candidate_turn)
              (subst
                (λ (x : List Transitioned).
                  Announces x (to env awaiting_answer "" w).0.manager.events)
                same (to-Announces env awaiting_answer "" w))
        | inl e ↦
            let x = score_turn env w in
            let y = (to env planning_next "" x).0 in
            let z = compress_memory env y in
            rw (e, finish_candidate_turn)
              (Announces-trans (change s turn_end "" ∷ o.manager.events) w.manager.events ([], same)
                (Announces-trans w.manager.events x.manager.events (score-Announces w) (
                  Announces-trans x.manager.events z.manager.events
                    (Announces-trans x.manager.events y.manager.events
                      (to-Announces env planning_next "" x)
                      (same-Announces y.manager z.manager (compress_state env y)))
                    (advance-grows z))))
      ]
