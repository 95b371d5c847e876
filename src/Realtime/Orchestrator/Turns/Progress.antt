-- ===== src/Realtime/Orchestrator/Turns/Progress.antt =====
-- In which state the turns of an interview leave it.
use praxis_interview_os.Base.{
  ℕ, suc, ◌≡◌, refl, sym, ap, subst, ◌∙◌, ◌⊎◌, inl, inr, Bool, true, false, ◌&&◌, List, [], ◌∷◌,
  Option, none, some, String, arith, Bool-cases, Option-cases, if◌then◌else◌, ltb, leb, length,
}
use praxis_interview_os.Realtime.Session.{
  SessionState, ready, interviewer_turn, awaiting_answer, yielding, planning_next, debrief,
  degraded_tts, stopped, transition, Manager, manage, close_if_terminal, log_transition, or_valid,
}
use praxis_interview_os.Realtime.Policy.{generate_next_turn}
use praxis_interview_os.Realtime.Session.Table.{transition_cases}
use praxis_interview_os.Realtime.Generation.{
  Generations, start_generation, cancel_current, cancel_unless, cancel, is_cancelled,
}
use praxis_interview_os.Realtime.Orchestrator.{
  Component, llm, tts, debriefing, interviewer_text, SpeechEnd, spoken, speech_fails, barged_in,
  Outside, Orchestrator, enqueue_event, called, to, note_degraded, insert_attempts, insert_turn,
  write_segments, flush_segments,
}
use praxis_interview_os.Realtime.Orchestrator.Asking.{
  trigger, decide_question, enqueue_chunks, speak, start_speech, after_speech, ask,
  begin_interviewer_turn,
}
use praxis_interview_os.Realtime.Orchestrator.Turns.{
  is_over, run_debrief, end_session_and_debrief, advance,
}

abbrev pub state : Orchestrator → SessionState
state o = o.manager.state

pub moved : {m n : Manager} {s : SessionState} → n ≡ m → m.state ≡ s → n.state ≡ s
moved same at = ap (λ (m : Manager). m.state) same ∙ at

close_state : (m : Manager) (t : SessionState) → (close_if_terminal m t).state ≡ m.state
unfolding close_if_terminal
close_state m t = ground arith

pub accepted :
    (m : Manager) (t : SessionState) (why : String)
    → transition m.state t ≡ some t
    → ((manage m t why).0.state ≡ t) × ((manage m t why).1 ≡ true)
unfolding manage
accepted m t why e =
    rw (e, manage)
      (close_state (log_transition (record m { state = t }) m.state t (or_valid why)) t, refl)

pub refused :
    (m : Manager) (t : SessionState) (why : String)
    → transition m.state t ≡ none
    → ((manage m t why).0.state ≡ m.state) × ((manage m t why).1 ≡ false)
unfolding manage log_transition
refused m t why e = rw (e, manage) (refl, refl)

module _ (env : Outside) where
  -- `to` follows the transition table.
  pub to_state :
      (o : Orchestrator) (t : SessionState) (why : String)
      → (state (to env t why o).0 ≡ (manage o.manager t why).0.state)
        × ((to env t why o).1 ≡ (manage o.manager t why).1)
        × ((to env t why o).0.generations ≡ o.generations)
  unfolding to
  to_state o t why = elim (Bool-cases (manage o.manager t why).1) [
    | inl e ↦ rw (e, to) (refl, refl, refl)
    | inr e ↦ rw (e, to) (refl, refl, refl)
  ]

  pub to_accepts :
      (o : Orchestrator) {s : SessionState} (t : SessionState) (why : String)
      → state o ≡ s
      → transition s t ≡ some t
      → state (to env t why o).0 ≡ t
  to_accepts o t why at ok = (to_state o t why).0 ∙ (accepted o.manager t why (rw at ok)).0

  pub to_accepted :
      (o : Orchestrator) {s : SessionState} (t : SessionState) (why : String)
      → state o ≡ s
      → transition s t ≡ some t
      → (to env t why o).1 ≡ true
  to_accepted o t why at ok = (to_state o t why).1 ∙ (accepted o.manager t why (rw at ok)).1

  pub to_refuses :
      (o : Orchestrator) {s : SessionState} (t : SessionState) (why : String)
      → state o ≡ s
      → transition s t ≡ none
      → state (to env t why o).0 ≡ s
  to_refuses o t why at shut = (to_state o t why).0 ∙ (refused o.manager t why (rw at shut)).0 ∙ at

  pub note_state : (c : Component) (o : Orchestrator) → (note_degraded env c o).manager ≡ o.manager
  unfolding note_degraded
  note_state c o = ground arith

  attempts_state :
      (n : ℕ) (id speaker : String) (parent : Option String) (text : String) (o : Orchestrator)
      → (insert_attempts env n id speaker parent text o).0.manager ≡ o.manager
  unfolding insert_attempts
  attempts_state ℕ.zero id speaker parent text o = refl
  attempts_state (suc n) id speaker parent text o =
      ground (arith, attempts_state n id speaker parent text (called env o))

  pub insert_state :
      (speaker text : String) (parent : Option String) (o : Orchestrator)
      → (insert_turn env speaker text parent o).0.manager ≡ o.manager
  unfolding insert_turn
  insert_state speaker text parent o =
      attempts_state 3 (env.uuid o.calls) speaker parent text (called env o)

  write_segments_state :
      (id : String) (segs : List String) (o : Orchestrator)
      → (write_segments env id segs o).manager ≡ o.manager
  unfolding write_segments
  write_segments_state id [] o = refl
  write_segments_state id (seg ∷ segs) o = write_segments_state id segs _

  pub flush_state : (id : String) (o : Orchestrator) → (flush_segments env id o).manager ≡ o.manager
  unfolding flush_segments
  flush_state id o = write_segments_state id o.pending_segments _

  pub chunks_same :
      (n g : ℕ) (o : Orchestrator)
      → ((enqueue_chunks env n g o).manager ≡ o.manager)
        × ((enqueue_chunks env n g o).generations ≡ o.generations)
  unfolding enqueue_chunks
  chunks_same ℕ.zero g o = (refl, refl)
  chunks_same (suc n) g o = chunks_same n g _

  pub question_state :
      (follow_up : Bool) (parent : Option String) (o : Orchestrator)
      → (decide_question env follow_up parent o).0.manager ≡ o.manager
  unfolding decide_question
  question_state follow_up parent o =
      let q =
        generate_next_turn o.current_candidate_answer follow_up parent (env.policy o.calls)
          o.session in
      elim (Option-cases q.1) [
        | inl e ↦ rw (e, decide_question) (note_state llm (record (called env o) { session = q.0 }))
        | inr (d, e) ↦ rw (e, decide_question) refl
      ]

  trigger_state :
      (why : String) (o : Orchestrator)
      → state o ≡ interviewer_turn
      → state (trigger env why o) ≡ awaiting_answer
  unfolding trigger transition
  trigger_state why o at =
      let y = accepted o.manager yielding "barge_in_triggered" (rw at refl) in
      let m = (manage o.manager yielding "barge_in_triggered").0 in
      let w = accepted m awaiting_answer "yield_complete" (rw y.0 refl) in
      rw (y.1, w.1, trigger) w.0

  started_live :
      (gs : Generations) (turn : String) → is_cancelled (start_generation gs turn) gs.made ≡ false
  unfolding start_generation is_cancelled cancel_current cancel_unless cancel
  started_live gs turn = ground arith

  pub start_speech_state :
      (q : String) (o : Orchestrator)
      → let (v, g) = start_speech env q o in
        (v.manager ≡ o.manager) × (is_cancelled v.generations g ≡ false)
  unfolding start_speech
  start_speech_state q o =
      let told : Orchestrator =
        enqueue_event env (interviewer_text q)
          (record o { current_candidate_answer = ""; last_interviewer_question = q }) in
      let kept = insert_turn env "interviewer" q none told in
      (
        insert_state "interviewer" q none told,
        started_live kept.0.generations (elim kept.1 [ some i ↦ i | none ↦ env.uuid kept.0.calls ]),
      )

  note_live :
      (c : Component) (o : Orchestrator) → (note_degraded env c o).generations ≡ o.generations
  unfolding note_degraded
  note_live c o = ground arith

  settle :
      (g : ℕ) (o : Orchestrator) (tts_failed : Bool)
      → state o ≡ interviewer_turn
      → is_cancelled o.generations g ≡ false
      → state (after_speech env g (o, tts_failed)) ≡ awaiting_answer
  unfolding after_speech transition
  settle g o true at live =
      rw (live, after_speech)
        (to_accepts (to env degraded_tts "tts_failed" o).0 awaiting_answer ""
          (to_accepts o degraded_tts "tts_failed" at refl) refl)
  settle g o false at live = rw (live, after_speech) (to_accepts o awaiting_answer "" at refl)

  settle_cut :
      (g : ℕ) (o : Orchestrator)
      → state o ≡ awaiting_answer
      → state (after_speech env g (o, false)) ≡ awaiting_answer
  unfolding after_speech transition
  settle_cut g o at = elim (Bool-cases (is_cancelled o.generations g)) [
    | inl e ↦ rw (e, after_speech) at
    | inr e ↦ rw (e, after_speech) (to_refuses o awaiting_answer "" at refl)
  ]

  speech_settles :
      (g : ℕ) (o : Orchestrator) (e : SpeechEnd)
      → env.speech o.calls ≡ e
      → state o ≡ interviewer_turn
      → is_cancelled o.generations g ≡ false
      → state (after_speech env g (speak env g o)) ≡ awaiting_answer
  unfolding speak
  speech_settles g o spoken e at live =
      let v = enqueue_chunks env (env.chunks o.calls) g (called env o) in
      let (m, gs) = chunks_same (env.chunks o.calls) g (called env o) in
      rw (e, speak) (settle g v false (moved m at) (rw gs live))
  speech_settles g o speech_fails e at live =
      let v = enqueue_chunks env (env.chunks o.calls) g (called env o) in
      let (m, gs) = chunks_same (env.chunks o.calls) g (called env o) in
      rw (e, speak)
        (settle g (note_degraded env tts v) true (moved (note_state tts v) (moved m at))
          (rw (note_live tts v) (rw gs live)))
  speech_settles g o barged_in e at live =
      let v = enqueue_chunks env (env.chunks o.calls) g (called env o) in
      let (m, gs) = chunks_same (env.chunks o.calls) g (called env o) in
      rw (e, speak)
        (settle_cut g (trigger env "vad_speech_detected" v)
          (trigger_state "vad_speech_detected" v (moved m at)))

  -- A question that is spoken, cut off, or not spoken at all leaves the interview waiting.
  ask_waits :
      (q : String) (o : Orchestrator)
      → state o ≡ interviewer_turn
      → state (ask env q o) ≡ awaiting_answer
  unfolding ask
  ask_waits q o at =
      let (same, live) = start_speech_state q o in
      let (v, g) = start_speech env q o in
      speech_settles g v (env.speech v.calls) refl (moved same at) live

  -- From READY, the next question is asked and the interview waits.
  pub begin_waits :
      (follow_up : Bool) (parent : Option String) (o : Orchestrator)
      → state o ≡ ready
      → state (begin_interviewer_turn env follow_up parent o) ≡ awaiting_answer
  unfolding begin_interviewer_turn transition
  begin_waits follow_up parent o at =
      let v = (to env interviewer_turn "" o).0 in
      ask_waits (decide_question env follow_up parent v).1
        (decide_question env follow_up parent v).0
        (moved (question_state follow_up parent v) (to_accepts o interviewer_turn "" at refl))

  finish_debrief :
      (o : Orchestrator) (ok : Bool)
      → state (if ok then called env o else note_degraded env debriefing (called env o)) ≡ state o
  finish_debrief o true = refl
  finish_debrief o false = rw (note_state debriefing (called env o))

  pub stop_open : (s : SessionState) → is_over env s ≡ false → transition s stopped ≡ some stopped
  unfolding transition is_over
  stop_open s h = ground arith

  stop_debrief : transition debrief stopped ≡ some stopped
  unfolding transition
  stop_debrief = refl

  pub run_debrief_stops :
      (o : Orchestrator) → is_over env (state o) ≡ false → state (run_debrief env o) ≡ stopped
  unfolding run_debrief
  run_debrief_stops o h =
      let cut : Orchestrator = record o {
        generations = cancel_current o.generations "session_end";
      } in
      let v = (to env debrief "" cut).0 in
      let w =
        if env.debrief_ok v.calls
        then called env v
        else note_degraded env debriefing (called env v) in
      to_accepts w stopped "" (finish_debrief v (env.debrief_ok v.calls))
        (elim (transition_cases (state o) debrief) [
          | inl e ↦
              subst (λ (s : SessionState). transition s stopped ≡ some stopped)
                (sym (to_refuses cut debrief "" refl e)) (stop_open (state o) h)
          | inr e ↦
              subst (λ (s : SessionState). transition s stopped ≡ some stopped)
                (sym (to_accepts cut debrief "" refl e)) stop_debrief
        ])

  not_over_ready : (s : SessionState) → s ≡ ready → is_over env s ≡ false
  unfolding is_over
  not_over_ready s at = rw at refl

  end_stops : (o : Orchestrator) → state o ≡ ready → state (end_session_and_debrief env o) ≡ stopped
  unfolding end_session_and_debrief
  end_stops o at =
      let going = not_over_ready (state o) at in
      rw (going, end_session_and_debrief) (run_debrief_stops o going)

  -- From PLANNING_NEXT, the interview asks the next question or ends.
  pub advance_settles :
      (o : Orchestrator)
      → state o ≡ planning_next
      → (state (advance env o) ≡ awaiting_answer) ⊎ (state (advance env o) ≡ stopped)
  unfolding advance transition
  advance_settles o at =
      let v = (to env ready "" o).0 in
      let at' = to_accepts o ready "" at refl in
      elim (Bool-cases (
        leb (length v.session.prep_pack) v.session.current_question_idx
        && ltb 0 (length v.session.prep_pack))) [
          | inl e ↦ inr (rw (e, advance) (end_stops v at'))
          | inr e ↦ inl (rw (e, advance) (begin_waits false none v at'))
        ]
