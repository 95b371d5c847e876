-- ===== src/Realtime/Orchestrator/Turns/Ended.antt =====
-- What an interviewer's turn does in a session that is already over.
use praxis_interview_os.Base.{
  ℕ, suc, ◌≡◌, refl, sym, ap, ◌∙◌, Bool, true, false, List, [], ◌∷◌, ◌++◌, Option, none, String,
  arith, Bool-cases, Option-cases, inl, inr, if◌then◌else◌,
}
use mathlib.Core.List.{append_assoc}
use praxis_interview_os.Realtime.Session.{
  SessionState, interviewer_turn, awaiting_answer, yielding, degraded_tts, stopped, transition,
  manage,
}
use praxis_interview_os.Realtime.Generation.{is_cancelled}
use praxis_interview_os.Realtime.Policy.{generate_next_turn}
use praxis_interview_os.Realtime.Orchestrator.{
  Component, llm, tts, Event, interviewer_text, SpeechEnd, spoken, speech_fails, barged_in, Outside,
  Orchestrator, enqueue_event, called, to, is_in, degraded, audio_chunk, note_degraded,
  insert_attempts, insert_turn,
}
use praxis_interview_os.Realtime.Orchestrator.Asking.{
  trigger, decide_question, enqueue_chunks, speak, start_speech, after_speech, ask,
  begin_interviewer_turn,
}
use praxis_interview_os.Realtime.Orchestrator.Turns.Progress.{
  state, moved, refused, to_refuses, note_state, chunks_same, question_state, start_speech_state,
}

-- The messages that were sent stay sent.
abbrev pub Grows : List Event → List Event → Type 0
Grows old new = (es : List Event) × (new ≡ es ++ old)

Grows-trans : (a b c : List Event) → Grows a b → Grows b c → Grows a c
Grows-trans a b c (es, e) (fs, f) =
    (fs ++ es, f ∙ ap (λ (x : List Event). fs ++ x) e ∙ sym (append_assoc fs es a))

module _ (env : Outside) where
  to_grows :
      (t : SessionState) (why : String) (o : Orchestrator)
      → Grows o.events (to env t why o).0.events
  unfolding to
  to_grows t why o = elim (Bool-cases (manage o.manager t why).1) [
    | inl e ↦ ([], rw (e, to) refl)
    | inr e ↦ ([], rw (e, to) refl)
  ]

  note-Grows : (c : Component) (o : Orchestrator) → Grows o.events (note_degraded env c o).events
  unfolding note_degraded
  note-Grows c o = elim (Bool-cases (is_in c o.degraded_components)) [
    | inl e ↦ ([], rw (e, note_degraded) refl)
    | inr e ↦ (degraded c ∷ [], rw (e, note_degraded) refl)
  ]

  chunks_grow : (n g : ℕ) (o : Orchestrator) → Grows o.events (enqueue_chunks env n g o).events
  unfolding enqueue_chunks
  chunks_grow ℕ.zero g o = ([], refl)
  chunks_grow (suc n) g o =
      Grows-trans o.events (audio_chunk g ∷ o.events) _ (audio_chunk g ∷ [], refl)
        (chunks_grow n g (enqueue_event env (audio_chunk g) o))

  attempts_send_nothing :
      (n : ℕ) (id speaker : String) (parent : Option String) (text : String) (o : Orchestrator)
      → (insert_attempts env n id speaker parent text o).0.events ≡ o.events
  unfolding insert_attempts
  attempts_send_nothing ℕ.zero id speaker parent text o = refl
  attempts_send_nothing (suc n) id speaker parent text o =
      ground (arith, attempts_send_nothing n id speaker parent text (called env o))

  told :
      (q : String) (o : Orchestrator)
      → (start_speech env q o).0.events ≡ interviewer_text q ∷ o.events
  unfolding start_speech insert_turn
  told q o =
      let v : Orchestrator =
        enqueue_event env (interviewer_text q)
          (record o { current_candidate_answer = ""; last_interviewer_question = q }) in
      attempts_send_nothing 3 (env.uuid v.calls) "interviewer" none q (called env v)

  trigger_stopped :
      (why : String) (o : Orchestrator)
      → state o ≡ stopped
      → (state (trigger env why o) ≡ stopped) × Grows o.events (trigger env why o).events
  unfolding trigger transition
  trigger_stopped why o at =
      let y = refused o.manager yielding "barge_in_triggered" (rw at refl) in
      (rw (y.1, trigger) (y.0 ∙ at), ([], rw (y.1, trigger) refl))

  after_stopped :
      (g : ℕ) (o : Orchestrator) (tts_failed : Bool)
      → state o ≡ stopped
      → (state (after_speech env g (o, tts_failed)) ≡ stopped)
        × Grows o.events (after_speech env g (o, tts_failed)).events
  unfolding after_speech transition
  after_stopped g o tts_failed at = elim (Bool-cases (is_cancelled o.generations g)) [
    | inl e ↦ rw (e, after_speech) (at, ([], refl))
    | inr e ↦
        rw (e, after_speech)
          (waiting_refused (if tts_failed then (to env degraded_tts "tts_failed" o).0 else o)
            (marked tts_failed))
  ]
    where
      waiting_refused :
          (v : Orchestrator)
          → (state v ≡ stopped) × Grows o.events v.events
          → (state (to env awaiting_answer "" v).0 ≡ stopped)
            × Grows o.events (to env awaiting_answer "" v).0.events
      waiting_refused v (still, more) = (
        to_refuses env v awaiting_answer "" still refl,
        Grows-trans o.events v.events _ more (to_grows awaiting_answer "" v),
      )

      marked :
          (failed : Bool)
          → let v = if failed then (to env degraded_tts "tts_failed" o).0 else o in
            (state v ≡ stopped) × Grows o.events v.events
      marked true =
          (to_refuses env o degraded_tts "tts_failed" at refl, to_grows degraded_tts "tts_failed" o)
      marked false = (at, ([], refl))

  speak_stopped :
      (g : ℕ) (o : Orchestrator) (e : SpeechEnd)
      → env.speech o.calls ≡ e
      → state o ≡ stopped
      → (state (after_speech env g (speak env g o)) ≡ stopped)
        × Grows o.events (after_speech env g (speak env g o)).events
  unfolding speak
  speak_stopped g o spoken e at =
      let v = enqueue_chunks env (env.chunks o.calls) g (called env o) in
      let (still, more) =
        after_stopped g v false
          (moved (chunks_same env (env.chunks o.calls) g (called env o)).0 at) in
      rw (e, speak)
        (
          still,
          Grows-trans o.events v.events _ (chunks_grow (env.chunks o.calls) g (called env o)) more,
        )
  speak_stopped g o speech_fails e at =
      let v = enqueue_chunks env (env.chunks o.calls) g (called env o) in
      let w = note_degraded env tts v in
      let (still, more) = after_stopped g w true (
        moved (note_state env tts v)
          (moved (chunks_same env (env.chunks o.calls) g (called env o)).0 at)) in
      rw (e, speak)
        (
          still,
          Grows-trans o.events v.events _ (chunks_grow (env.chunks o.calls) g (called env o))
              (Grows-trans v.events w.events _ (note-Grows tts v) more),
        )
  speak_stopped g o barged_in e at =
      let v = enqueue_chunks env (env.chunks o.calls) g (called env o) in
      let w = trigger env "vad_speech_detected" v in
      let (cut, sent) =
        trigger_stopped "vad_speech_detected" v
          (moved (chunks_same env (env.chunks o.calls) g (called env o)).0 at) in
      let (still, more) = after_stopped g w false cut in
      rw (e, speak)
        (
          still,
          Grows-trans o.events v.events _ (chunks_grow (env.chunks o.calls) g (called env o))
              (Grows-trans v.events w.events _ sent more),
        )

  question_sent_nothing :
      (o : Orchestrator) → Grows o.events (decide_question env false none o).0.events
  unfolding decide_question
  question_sent_nothing o =
      let q =
        generate_next_turn o.current_candidate_answer false none (env.policy o.calls) o.session in
      elim (Option-cases q.1) [
        | inl e ↦ rw (e, decide_question) (note-Grows llm (record (called env o) { session = q.0 }))
        | inr (d, e) ↦ ([], rw (e, decide_question) refl)
      ]

  -- The interviewer's turn does not look at the result of its first transition: begun after the
  -- session was stopped, as by a candidate's turn that was being scored meanwhile, it leaves the
  -- session stopped and still sends the next question to the client.
  asks_after_stop :
      (o : Orchestrator)
      → state o ≡ stopped
      → let v = begin_interviewer_turn env false none o in
        (state v ≡ stopped)
        × ((q : String) × (es : List Event) × (old : List Event) × (v.events
              ≡ es ++ interviewer_text q ∷ old)
            × Grows o.events old)
  unfolding begin_interviewer_turn ask transition
  asks_after_stop o at =
      let u = (to env interviewer_turn "" o).0 in
      let (d, q) = decide_question env false none u in
      let (v, g) = start_speech env q d in
      let still : state v ≡ stopped =
        moved (start_speech_state env q d).0 (
          moved (question_state env false none u) (to_refuses env o interviewer_turn "" at refl)) in
      let (same, (es, e)) = speak_stopped g v (env.speech v.calls) refl still in
      (
        same,
        (
          q,
          es,
          d.events,
          e ∙ ap (λ (x : List Event). es ++ x) (told q d),
          Grows-trans o.events u.events d.events (to_grows interviewer_turn "" o)
              (question_sent_nothing u),
        ),
      )
