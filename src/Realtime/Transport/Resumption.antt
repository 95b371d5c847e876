-- ===== src/Realtime/Transport/Resumption.antt =====
-- In which state a connection and its messages leave an interview.
use praxis_interview_os.Base.{
  ◌≡◌, refl, ap, ◌∙◌, ◌⊎◌, inl, inr, true, false, List, subst, sym, ◌∷◌, none, some, String, arith,
  Bool-cases, str_eq,
}
use praxis_interview_os.Realtime.Session.{
  SessionState, ready, preflight, warming, interviewer_turn, idle, awaiting_answer, candidate_turn,
  reconnecting, paused, turn_end, state_eq, transition, Transitioned, Manager, manage,
  try_transition,
}
use praxis_interview_os.Realtime.Session.Table.{transition_cases}
use praxis_interview_os.Realtime.Orchestrator.{
  interviewer_text, Outside, Orchestrator, to, enqueue_event,
}
use praxis_interview_os.Realtime.Orchestrator.Turns.{start_candidate_turn, on_candidate_turn_end}
use praxis_interview_os.Realtime.Orchestrator.Turns.Announced.{
  change, Announces, manage_told, to_told,
}
use praxis_interview_os.Realtime.Orchestrator.Turns.Finished.{finish-Announces}
use praxis_interview_os.Realtime.Orchestrator.Turns.Progress.{
  state, accepted, refused, to_accepts, begin_waits,
}
use praxis_interview_os.Realtime.Orchestrator.Turns.Settled.{Settled, MayEnd, turn_end_settles}
use praxis_interview_os.Realtime.Transport.{
  Snapshot, snapshot, restore, start, resume, move, begin_answer, end_answer, first_chars,
  receive_message, session_pause, session_resume, text_answer, invalid_state,
}

is_awaiting : (s : SessionState) → s ≡ awaiting_answer → state_eq s awaiting_answer ≡ true
unfolding state_eq
is_awaiting s at = rw at refl

is_awaiting_not : (s : SessionState) → s ≡ candidate_turn → state_eq s awaiting_answer ≡ false
unfolding state_eq
is_awaiting_not s at = rw at refl

is_candidate : (s : SessionState) → s ≡ candidate_turn → state_eq s candidate_turn ≡ true
unfolding state_eq
is_candidate s at = rw at refl

is_paused : (s : SessionState) → s ≡ paused → state_eq s paused ≡ true
unfolding state_eq
is_paused s at = rw at refl

resumable : transition paused awaiting_answer ≡ some awaiting_answer
unfolding transition
resumable = refl

module _ (env : Outside) where
  moves :
      (o : Orchestrator) {s : SessionState} (t : SessionState) (why : String)
      → state o ≡ s
      → transition s t ≡ some t
      → state (move env t why o) ≡ t
  moves o t why at ok = (accepted o.manager t why (rw at ok)).0

  -- A new connection to a session that is IDLE asks the first question and waits for its answer.
  start_waits : (o : Orchestrator) → state o ≡ idle → state (start env o) ≡ awaiting_answer
  unfolding start transition
  start_waits o at =
      let a = move env preflight "" o in
      let b = move env warming "" a in
      begin_waits env false none (move env ready "" b)
        (moves b ready "" (moves a warming "" (moves o preflight "" at refl) refl) refl)

  to_keeps :
      (o : Orchestrator) (t : SessionState) (why : String)
      → let v = (to env t why o).0 in
        (v.session ≡ o.session)
        × (v.last_interviewer_question ≡ o.last_interviewer_question)
        × (v.events ≡ o.events)
  unfolding to
  to_keeps o t why = elim (Bool-cases (manage o.manager t why).1) [
    | inl e ↦ rw (e, to) (refl, refl, refl)
    | inr e ↦ rw (e, to) (refl, refl, refl)
  ]

  -- A session that is resumed waits for an answer, whatever its state was and whatever fails: without a
  -- last question a new one is asked.
  resume_waits :
      (cached : Snapshot) (o : Orchestrator) → state (resume env cached o) ≡ awaiting_answer
  unfolding resume transition
  resume_waits cached o =
      let v = restore cached o in
      let w : Orchestrator = record v { manager = record (v.manager) { state = reconnecting } } in
      let back = move env ready "reconnected" w in
      let at = moves w ready "reconnected" refl refl in
      elim (Bool-cases (str_eq back.last_interviewer_question "")) [
        | inl e ↦ rw (e, resume) (begin_waits env false none back at)
        | inr e ↦
            let told = enqueue_event env (interviewer_text back.last_interviewer_question) back in
            rw (e, resume)
              (to_accepts env (move env interviewer_turn "resume" told) awaiting_answer "resume"
                (moves told interviewer_turn "resume" at refl) refl)
      ]

  resume_told :
      (m : Manager)
      → m.state ≡ reconnecting
      → let back = (manage m ready "reconnected").0 in
        let turn = (manage back interviewer_turn "resume").0 in
        (turn.state ≡ interviewer_turn)
        × (turn.events
            ≡ change ready interviewer_turn "resume"
              ∷ change reconnecting ready "reconnected"
              ∷ m.events)
  unfolding transition
  resume_told m at =
      let back = (manage m ready "reconnected").0 in
      let first = accepted m ready "reconnected" (rw at refl) in
      let second = accepted back interviewer_turn "resume" (rw first.0 refl) in
      (
        second.0,
        manage_told env back interviewer_turn "resume" first.0 second.1
            ∙ ap (◌∷◌ (change ready interviewer_turn "resume"))
                (manage_told env m ready "reconnected" at first.1),
      )

  -- A session that is resumed from its snapshot waits for an answer, whatever the new connection's state
  -- was and whatever fails. If a question was asked before the connection was lost, the interview stands
  -- at the same question of the pack, and the client is sent that question and is told of the three
  -- changes of the state from RECONNECTING on, and of nothing else.
  pub resumes_where_left :
      (old o : Orchestrator)
      → let v = resume env (snapshot old) o in
        (state v ≡ awaiting_answer)
        × ((str_eq old.last_interviewer_question "" ≡ true)
            ⊎ ((v.session.current_question_idx ≡ old.session.current_question_idx)
                × (v.last_interviewer_question ≡ old.last_interviewer_question)
                × (v.events ≡ interviewer_text old.last_interviewer_question ∷ o.events)
                × (v.manager.events
                    ≡ change interviewer_turn awaiting_answer "resume"
                      ∷ change ready interviewer_turn "resume"
                      ∷ change reconnecting ready "reconnected"
                      ∷ o.manager.events)))
  unfolding resume restore snapshot transition
  resumes_where_left old o = (
    resume_waits (snapshot old) o,
    elim (Bool-cases (str_eq old.last_interviewer_question "")) [
      | inl e ↦ inl e
      | inr e ↦
          let v = restore (snapshot old) o in
          let w : Orchestrator = record v {
            manager = record (v.manager) { state = reconnecting };
          } in
          let back = move env ready "reconnected" w in
          let told = enqueue_event env (interviewer_text back.last_interviewer_question) back in
          let kept = to_keeps (move env interviewer_turn "resume" told) awaiting_answer "resume" in
          let (at, announced) = resume_told w.manager refl in
          inr (
            rw (e, resume)
              (
                ap (λ s. s.current_question_idx) kept.0,
                kept.1,
                kept.2,
                to_told env (move env interviewer_turn "resume" told) awaiting_answer "resume" at
                      refl
                    ∙ ap (◌∷◌ (change interviewer_turn awaiting_answer "resume")) announced,
              ))
    ],
  )

  turn_lock_kept : (o : Orchestrator) → (start_candidate_turn env o).turn_lock ≡ o.turn_lock
  unfolding start_candidate_turn to
  turn_lock_kept o = ground arith

  turn_started :
      (o : Orchestrator)
      → state o ≡ awaiting_answer
      → state (start_candidate_turn env o) ≡ candidate_turn
  unfolding start_candidate_turn transition
  turn_started o at =
      let moved_on = to_accepts env o candidate_turn "" at refl in
      elim (Bool-cases (to env candidate_turn "" o).1) [
        | inl e ↦ rw (e, start_candidate_turn) moved_on
        | inr e ↦ rw (e, start_candidate_turn) moved_on
      ]

  begun :
      (o : Orchestrator)
      → MayEnd (state o)
      → (state (begin_answer env o) ≡ candidate_turn)
        × ((begin_answer env o).turn_lock ≡ o.turn_lock)
  unfolding begin_answer state_eq
  begun o (inl at) = rw (is_awaiting_not (state o) at, begin_answer) (at, refl)
  begun o (inr at) =
      rw (is_awaiting (state o) at, begin_answer) (turn_started o at, turn_lock_kept o)

  answer_settles :
      (answer : String) (o : Orchestrator)
      → state o ≡ candidate_turn
      → o.turn_lock ≡ false
      → let v = end_answer env answer o in Settled v × (v.turn_lock ≡ false)
  unfolding end_answer
  answer_settles answer o at free =
      rw (is_candidate (state o) at, end_answer) (turn_end_settles env answer o (inl at) free)

  -- The changes that a client is told of when an answer begins and ends a turn.
  abbrev pub TellsTurn : Orchestrator → List Transitioned → Type 0
  TellsTurn o new =
      ((state o ≡ candidate_turn)
        × Announces (change candidate_turn turn_end "" ∷ o.manager.events) new)
      ⊎ ((state o ≡ awaiting_answer)
          × Announces
              (change candidate_turn turn_end ""
                ∷ change awaiting_answer candidate_turn ""
                ∷ o.manager.events)
              new)

  answer_told :
      (answer : String) (o : Orchestrator)
      → state o ≡ candidate_turn
      → o.turn_lock ≡ false
      → Announces
          (change candidate_turn turn_end "" ∷ o.manager.events)
          (end_answer env answer o).manager.events
  unfolding end_answer on_candidate_turn_end transition
  answer_told answer o at free =
      rw (is_candidate (state o) at, end_answer)
        (rw free (finish-Announces env answer (record o { turn_lock = true }) at refl))

  begun_told :
      (o : Orchestrator)
      → state o ≡ awaiting_answer
      → (begin_answer env o).manager.events
        ≡ change awaiting_answer candidate_turn "" ∷ o.manager.events
  unfolding begin_answer start_candidate_turn transition
  begun_told o at =
      let told = to_told env o candidate_turn "" at refl in
      rw (is_awaiting (state o) at, begin_answer)
        (elim (Bool-cases (to env candidate_turn "" o).1) [
          | inl e ↦ rw (e, start_candidate_turn) told
          | inr e ↦ rw (e, start_candidate_turn) told
        ])

  begun_same : (o : Orchestrator) → state o ≡ candidate_turn → begin_answer env o ≡ o
  unfolding begin_answer
  begun_same o at = rw (is_awaiting_not (state o) at, begin_answer) refl

  text_TellsTurn :
      (text : String) (o : Orchestrator)
      → MayEnd (state o)
      → o.turn_lock ≡ false
      → TellsTurn o (receive_message env (text_answer text) o).0.manager.events
  unfolding receive_message
  text_TellsTurn text o (inl at) free = inl (
    at,
    subst
        (λ (p : Orchestrator).
          Announces (change candidate_turn turn_end "" ∷ o.manager.events)
            (end_answer env (first_chars text 10_000) p).manager.events)
        (sym (begun_same o at)) (answer_told (first_chars text 10_000) o at free),
  )
  text_TellsTurn text o (inr at) free =
      let (turn, lock) = begun o (inr at) in
      let v = end_answer env (first_chars text 10_000) (begin_answer env o) in
      inr (
        at,
        subst
            (λ (x : List Transitioned).
              Announces (change candidate_turn turn_end "" ∷ x) v.manager.events)
            (begun_told o at)
            (answer_told (first_chars text 10_000) (begin_answer env o) turn (lock ∙ free)),
      )

  -- A text answer in CANDIDATE_TURN or AWAITING_ANSWER, while no turn end is being processed, begins the
  -- candidate's turn if it has not begun and ends it, which the client is told of in this order. Then
  -- the interview waits for the next answer or is over, and the lock on turn ends is free again.
  pub text_answer_settles :
      (text : String) (o : Orchestrator)
      → MayEnd (state o)
      → o.turn_lock ≡ false
      → let v = (receive_message env (text_answer text) o).0 in
        Settled v × (v.turn_lock ≡ false) × TellsTurn o v.manager.events
  unfolding receive_message
  text_answer_settles text o may free =
      let (at, lock) = begun o may in
      let (settles, unlocked) =
        answer_settles (first_chars text 10_000) (begin_answer env o) at (lock ∙ free) in
      (settles, unlocked, text_TellsTurn text o may free)

  -- A client's pause is refused, with an error and without a change of state, or the interview is
  -- paused, and a resumption right after it makes it wait for an answer, whichever turn was interrupted.
  pause_resumes :
      (o : Orchestrator)
      → let v = receive_message env session_pause o in
        ((state v.0 ≡ state o) × (v.1 ≡ some invalid_state))
        ⊎ ((state v.0 ≡ paused)
            × (v.1 ≡ none)
            × (state (receive_message env session_resume v.0).0 ≡ awaiting_answer))
  unfolding receive_message try_transition
  pause_resumes o = elim (transition_cases (state o) paused) [
    | inl e ↦
        let (at, why) = refused o.manager paused "client_pause" e in
        inl (at, rw (why, receive_message) refl)
    | inr e ↦
        let (at, why) = accepted o.manager paused "client_pause" e in
        let v = move env paused "client_pause" o in
        inr (
          at,
          rw (why, receive_message) refl,
          rw (is_paused (state v) at, receive_message)
              (to_accepts env v awaiting_answer "client_resume" at resumable),
        )
  ]
