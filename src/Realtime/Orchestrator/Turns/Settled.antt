-- ===== src/Realtime/Orchestrator/Turns/Settled.antt =====
-- Where an interview stands after a turn of the candidate, after a timeout and after its end.
use praxis_interview_os.Base.{
  ℕ, suc, ◌++◌, List, [], Bool, if◌then◌else◌, ◌+◌, ◌≤◌, ◌<◌, ◌≡◌, refl, sym, ap, subst, ◌∙◌, ◌⊎◌,
  inl, inr, true, false, ◌∷◌, Option, none, some, String, arith, Bool-cases, Option-cases, ltb, leb,
}
use praxis_interview_os.Realtime.Session.{
  SessionState, awaiting_answer, candidate_turn, turn_end, scoring as scoring_state, planning_next,
  ready, debrief, degraded_llm, stopped, state_eq, transition, Manager, manage, Transitioned,
}
use praxis_interview_os.Realtime.TurnDetection.{evaluate, silence_threshold_ms}
use praxis_interview_os.Realtime.Orchestrator.{
  Component, turn_detection, nudge, scoring, debriefing, Event, debrief_ready, is_in, AnswerScore,
  Outside, Orchestrator, called, to, note_degraded, insert_turn, flush_segments,
}
use praxis_interview_os.Realtime.Orchestrator.Scoring.{
  record_score, check_claims, score_turn, compress_memory, classify, answered,
}
use praxis_interview_os.Realtime.Orchestrator.Turns.{
  is_over, run_debrief, advance, end_session_and_debrief, finish_candidate_turn,
  on_candidate_turn_end, handle_vad_silence, skip_turn, handle_no_answer_timeout,
}
use praxis_interview_os.Realtime.Orchestrator.Turns.Progress.{
  state, moved, to_accepts, to_accepted, note_state, insert_state, advance_settles,
  run_debrief_stops,
}
use praxis_interview_os.Realtime.Generation.{cancel_current}
use praxis_interview_os.Realtime.Orchestrator.Turns.Announced.{change, Announces, to_told}
use praxis_interview_os.Realtime.Orchestrator.Turns.Finished.{advance-Announces}
use praxis_interview_os.Realtime.Orchestrator.Turns.Kept.{
  store_score, claims_state, flushed, compress_state, classify_state, answered_state,
}

-- The interview waits for an answer, or it is over.
abbrev pub Settled : Orchestrator → Type 0
Settled o = (state o ≡ awaiting_answer) ⊎ (state o ≡ stopped)

-- What a client is told of a turn that is skipped, the latest first.
abbrev pub skipped : List Transitioned
skipped =
    change planning_next ready ""
    ∷ change turn_end planning_next "no_answer_timeout"
    ∷ change awaiting_answer turn_end "no_answer_timeout"
    ∷ []

-- How often a client was told of its debrief.
abbrev pub debriefs_told : List Event → ℕ
debriefs_told [] = 0
debriefs_told (debrief_ready ok ∷ es) = suc (debriefs_told es)
debriefs_told (_ ∷ es) = debriefs_told es

-- A state in which a silence or a text answer may end the turn.
abbrev pub MayEnd : SessionState → Type 0
MayEnd s = (s ≡ candidate_turn) ⊎ (s ≡ awaiting_answer)

module _ (env : Outside) where
  -- A scoring that raises is noted, and PLANNING_NEXT stays within reach.
  scored :
      (turn_id : Option String) (score : Option AnswerScore) (o : Orchestrator)
      → state o ≡ scoring_state
      → state (to env planning_next "" (record_score env turn_id score o)).0 ≡ planning_next
  unfolding transition record_score
  scored turn_id none o at =
      let v = note_degraded env scoring o in
      to_accepts env (to env degraded_llm "scoring_failed" v).0 planning_next ""
        (to_accepts env v degraded_llm "scoring_failed" (moved (note_state env scoring o) at) refl)
        refl
  scored turn_id (some score) o at =
      to_accepts env (record_score env turn_id (some score) o) planning_next ""
        (moved (store_score env turn_id score o) at) refl

  score_planned :
      (o : Orchestrator)
      → state o ≡ turn_end
      → state (to env planning_next "" (score_turn env o)).0 ≡ planning_next
  unfolding score_turn transition
  score_planned o at =
      let v = (to env scoring_state "" o).0 in
      let w = insert_turn env "candidate" v.current_candidate_answer v.last_interviewer_turn_id v in
      let x = elim w.1 as (λ _. Orchestrator) [
        | none ↦ w.0
        | some id ↦ flush_segments env id w.0
      ] in
      scored w.1 (env.score x.calls) (check_claims env w.1 (called env x)) (
        moved (claims_state env w.1 (called env x)) (
          moved (flushed env w.1 w.0) (
            moved
              (insert_state env "candidate" v.current_candidate_answer v.last_interviewer_turn_id v)
              (to_accepts env o scoring_state "" at refl))))

  ends_turn : (o : Orchestrator) → MayEnd (state o) → state (to env turn_end "" o).0 ≡ turn_end
  unfolding transition
  ends_turn o (inl at) = to_accepts env o turn_end "" at refl
  ends_turn o (inr at) = to_accepts env o turn_end "" at refl

  finish_settles :
      (text : String) (o : Orchestrator)
      → MayEnd (state o)
      → Settled (finish_candidate_turn env text o)
  unfolding finish_candidate_turn transition
  finish_settles text o may =
      let v = answered env text (to env turn_end "" o).0 in
      let w = (classify env v).0 in
      let at : state w ≡ turn_end =
        moved (classify_state env v)
          (moved (answered_state env text (to env turn_end "" o).0) (ends_turn o may)) in
      elim (Bool-cases (classify env v).1) [
        | inl e ↦
            rw (e, finish_candidate_turn)
              (advance_settles env
                (compress_memory env (to env planning_next "" (score_turn env w)).0)
                (moved (compress_state env (to env planning_next "" (score_turn env w)).0)
                  (score_planned w at)))
        | inr e ↦ inl (rw (e, finish_candidate_turn) (to_accepts env w awaiting_answer "" at refl))
      ]

  -- When the candidate's turn ends, in CANDIDATE_TURN or AWAITING_ANSWER and while no other turn end is
  -- being processed, then whatever the classifier, the scoring, the claims, the memory, the database, the
  -- language model and the speech synthesis do, the interview waits for the next answer or is over, and
  -- the lock on turn ends is free again.
  pub turn_end_settles :
      (text : String) (o : Orchestrator)
      → MayEnd (state o)
      → o.turn_lock ≡ false
      → let v = on_candidate_turn_end env text o in Settled v × (v.turn_lock ≡ false)
  unfolding on_candidate_turn_end
  turn_end_settles text o may free =
      rw free (finish_settles text (record o { turn_lock = true }) may, refl)

  note_lock : (c : Component) (o : Orchestrator) → (note_degraded env c o).turn_lock ≡ o.turn_lock
  unfolding note_degraded
  note_lock c o = ground arith

  -- A silence in CANDIDATE_TURN or AWAITING_ANSWER, while no turn end is being processed, leaves the
  -- state as it was, or it has reached the threshold and settles the candidate's turn; this holds also
  -- when the detector raises.
  pub silence_settles :
      (silence_ms : ℕ) (partial : String) (o : Orchestrator)
      → MayEnd (state o)
      → o.turn_lock ≡ false
      → let v = handle_vad_silence env silence_ms partial o in
        ((silence_threshold_ms ≤ silence_ms) × Settled v) ⊎ (state v ≡ state o)
  unfolding handle_vad_silence evaluate
  silence_settles silence_ms partial o may free = elim (Option-cases (env.completeness o.calls)) [
    | inl e ↦
        let w = note_degraded env turn_detection (called env o) in
        let same = note_state env turn_detection (called env o) in
        elim (Bool-cases (leb 1500 silence_ms)) [
          | inl long ↦
              rw (e, handle_vad_silence)
                (rw long (
                  inl (
                    ground arith,
                    (turn_end_settles partial w
                        (subst (λ (m : Manager). MayEnd m.state) (sym same) may)
                        (note_lock turn_detection (called env o) ∙ free)).0,
                  )))
          | inr short ↦ rw (e, handle_vad_silence) (rw short (inr (moved same refl)))
        ]
    | inr (answer, e) ↦ elim (Bool-cases (evaluate answer silence_ms partial).is_turn_end) [
      | inl ends ↦
          rw (e, handle_vad_silence)
            (rw ends (inl (ground arith, (turn_end_settles partial (called env o) may free).0)))
      | inr goes ↦ rw (e, handle_vad_silence) (rw goes (inr refl))
    ]
  ]

  is_awaiting : (s : SessionState) → s ≡ awaiting_answer → state_eq s awaiting_answer ≡ true
  unfolding state_eq
  is_awaiting s at = rw at refl

  skip_settles : (o : Orchestrator) → state o ≡ awaiting_answer → Settled (skip_turn env o)
  unfolding skip_turn transition
  skip_settles o at =
      let u : Orchestrator = record o { nudges_sent = 0 } in
      let v = (to env turn_end "no_answer_timeout" u).0 in
      let w = (insert_turn env "candidate" "" v.last_interviewer_turn_id v).0 in
      let ended = to_accepts env u turn_end "no_answer_timeout" at refl in
      rw (to_accepted env u turn_end "no_answer_timeout" at refl, skip_turn)
        (advance_settles env (to env planning_next "no_answer_timeout" w).0 (
          to_accepts env w planning_next "no_answer_timeout"
            (moved (insert_state env "candidate" "" v.last_interviewer_turn_id v) ended) refl))

  skip-Announces :
      (o : Orchestrator)
      → state o ≡ awaiting_answer
      → Announces (skipped ++ o.manager.events) (skip_turn env o).manager.events
  unfolding skip_turn transition
  skip-Announces o at =
      let u : Orchestrator = record o { nudges_sent = 0 } in
      let v = (to env turn_end "no_answer_timeout" u).0 in
      let w = (insert_turn env "candidate" "" v.last_interviewer_turn_id v).0 in
      let same = insert_state env "candidate" "" v.last_interviewer_turn_id v in
      let ended = moved same (to_accepts env u turn_end "no_answer_timeout" at refl) in
      let told : (to env planning_next "no_answer_timeout" w).0.manager.events
          ≡ change turn_end planning_next "no_answer_timeout"
            ∷ change awaiting_answer turn_end "no_answer_timeout"
            ∷ o.manager.events =
        to_told env w planning_next "no_answer_timeout" ended refl
        ∙ ap (λ (m : Manager). change turn_end planning_next "no_answer_timeout" ∷ m.events) same
        ∙ ap (◌∷◌ (change turn_end planning_next "no_answer_timeout"))
            (to_told env u turn_end "no_answer_timeout" at refl) in
      rw (to_accepted env u turn_end "no_answer_timeout" at refl, skip_turn)
        (subst
          (λ (x : List Transitioned).
            Announces (change planning_next ready "" ∷ x)
              (advance env (to env planning_next "no_answer_timeout" w).0).manager.events)
          told
          (advance-Announces env (to env planning_next "no_answer_timeout" w).0
            (to_accepts env w planning_next "no_answer_timeout" ended refl)))

  -- A candidate who does not answer in time is nudged, and the interview goes on waiting, as long as
  -- nudges are left. Then the turn is skipped: the client is told that it ended, that the next question
  -- is planned and that the interview is ready for it, in this order and whatever fails, and at last the
  -- interview waits for an answer or is over.
  pub timeout_settles :
      (max_nudges : ℕ) (o : Orchestrator)
      → state o ≡ awaiting_answer
      → let v = handle_no_answer_timeout env max_nudges o in
        ((o.nudges_sent < max_nudges)
          × (v.manager ≡ o.manager)
          × (v.nudges_sent ≡ o.nudges_sent + 1)
          × (v.events ≡ nudge ∷ o.events))
        ⊎ ((max_nudges ≤ o.nudges_sent)
            × Settled v
            × Announces (skipped ++ o.manager.events) v.manager.events)
  unfolding handle_no_answer_timeout
  timeout_settles max_nudges o at =
      let waits = is_awaiting (state o) at in
      elim (Bool-cases (ltb o.nudges_sent max_nudges)) [
        | inl left ↦
            rw (waits, handle_no_answer_timeout) (rw left (inl (ground arith, refl, refl, refl)))
        | inr over ↦
            rw (waits, handle_no_answer_timeout)
              (rw over (inr (ground arith, skip_settles o at, skip-Announces o at)))
      ]

  over_rests : (o : Orchestrator) → is_over env (state o) ≡ true → end_session_and_debrief env o ≡ o
  unfolding end_session_and_debrief
  over_rests o e = rw (e, end_session_and_debrief) refl

  over_stopped : (s : SessionState) → s ≡ stopped → is_over env s ≡ true
  unfolding is_over
  over_stopped s at = rw at refl

  to_quiet : (o : Orchestrator) (t : SessionState) → (to env t "" o).0.events ≡ o.events
  unfolding to
  to_quiet o t = elim (Bool-cases (manage o.manager t "").1) [
    | inl e ↦ rw (e, to) refl
    | inr e ↦ rw (e, to) refl
  ]

  note_quiet :
      (o : Orchestrator) (ok : Bool)
      → debriefs_told
          (if ok then called env o else note_degraded env debriefing (called env o)).events
        ≡ debriefs_told o.events
  unfolding note_degraded
  note_quiet o true = refl
  note_quiet o false = elim (Bool-cases (is_in debriefing o.degraded_components)) [
    | inl e ↦ rw (e, note_degraded) refl
    | inr e ↦ rw (e, note_degraded) refl
  ]

  run_debrief_tells :
      (o : Orchestrator) → debriefs_told (run_debrief env o).events ≡ debriefs_told o.events + 1
  unfolding run_debrief
  run_debrief_tells o =
      let cut : Orchestrator = record o {
        generations = cancel_current o.generations "session_end";
      } in
      let v = (to env debrief "" cut).0 in
      let ok = env.debrief_ok v.calls in
      let w = if ok then called env v else note_degraded env debriefing (called env v) in
      let same =
        ap debriefs_told (to_quiet w stopped)
        ∙ note_quiet v ok
        ∙ ap debriefs_told (to_quiet cut debrief) in
      omega (arith, same)

  -- Ending a session that is not in DEBRIEF, STOPPED or FAILED stops it and tells the client of its
  -- debrief once, from every state and whether or not the debrief can be generated; ending it again, or
  -- ending one that is over, changes and tells nothing.
  pub end_stops_once :
      (o : Orchestrator)
      → let v = end_session_and_debrief env o in
        (end_session_and_debrief env v ≡ v)
        × (((is_over env (state o) ≡ false)
              × (state v ≡ stopped)
              × (debriefs_told v.events ≡ debriefs_told o.events + 1))
            ⊎ ((is_over env (state o) ≡ true) × (v ≡ o)))
  unfolding end_session_and_debrief
  end_stops_once o = elim (Bool-cases (is_over env (state o))) [
    | inl e ↦ (ap (end_session_and_debrief env) (over_rests o e), inr (e, over_rests o e))
    | inr e ↦
        let stops : state (end_session_and_debrief env o) ≡ stopped =
          rw (e, end_session_and_debrief) (run_debrief_stops env o e) in
        (
          over_rests (end_session_and_debrief env o) (over_stopped _ stops),
          inl (e, stops, rw (e, end_session_and_debrief) (run_debrief_tells o)),
        )
  ]
