-- ===== src/Realtime/Orchestrator/Turns/Announced.antt =====
-- The state changes that a client is told of: a turn adds announcements and takes none back.
use praxis_interview_os.Base.{
  ℕ, ◌≡◌, refl, sym, ap, subst, ◌∙◌, Bool, true, false, List, [], ◌∷◌, ◌++◌, Option, some, String,
  arith, Bool-cases, inl, inr, if◌then◌else◌,
}
use mathlib.Core.List.{append_assoc}
use praxis_interview_os.Realtime.Session.{
  SessionState, interviewer_turn, awaiting_answer, yielding, degraded_tts, transition, Transitioned,
  Manager, manage,
}
use praxis_interview_os.Realtime.Session.Audit.{Managed, refused, accepted, manage-Managed}
use praxis_interview_os.Realtime.Generation.{is_cancelled}
use praxis_interview_os.Realtime.Orchestrator.{
  tts, SpeechEnd, spoken, speech_fails, barged_in, Outside, Orchestrator, called, to, note_degraded,
}
use praxis_interview_os.Realtime.Orchestrator.Asking.{
  trigger, decide_question, enqueue_chunks, speak, start_speech, after_speech, ask,
  begin_interviewer_turn,
}
use praxis_interview_os.Realtime.Orchestrator.Turns.Progress.{
  state, note_state, chunks_same, question_state, start_speech_state, to_state, to_accepted,
}

-- The announcement of a state change.
abbrev pub change : SessionState → SessionState → String → Transitioned
change s t why = record { from_state = s; to_state = t; reason = why }

-- What was announced stays announced, and what comes after it is added.
abbrev pub Announces : List Transitioned → List Transitioned → Type 0
Announces old new = (es : List Transitioned) × (new ≡ es ++ old)

pub same-Announces : (m n : Manager) → n ≡ m → Announces m.events n.events
same-Announces m n e = ([], ap (λ (x : Manager). x.events) e)

pub Announces-trans :
    (old mid : List Transitioned) {new : List Transitioned}
    → Announces old mid
    → Announces mid new
    → Announces old new
Announces-trans old mid (es, e) (fs, f) =
    (fs ++ es, f ∙ ap (λ (x : List Transitioned). fs ++ x) e ∙ sym (append_assoc fs es old))

managed-Announces :
    (m q : Manager) (t : SessionState) (why : String) (ok : Bool)
    → Managed m t why q ok
    → Announces m.events q.events
managed-Announces m q t why false (refused e s ev st l) = ([], ev)
managed-Announces m q t why true (accepted e s ev l) = (change m.state t why ∷ [], ev)

manage-Announces :
    (m : Manager) (t : SessionState) (why : String) → Announces m.events (manage m t why).0.events
manage-Announces m t why = managed-Announces m _ t why _ (manage-Managed m t why)

managed_told :
    (m q : Manager) (t : SessionState) (why : String) (ok : Bool)
    → Managed m t why q ok
    → ok ≡ true
    → q.events ≡ change m.state t why ∷ m.events
managed_told m q t why false (refused e s ev st l) ok = absurd (ground arith)
managed_told m q t why true (accepted e s ev l) ok = ev

module _ (env : Outside) where
  to_manager :
      (t : SessionState) (why : String) (o : Orchestrator)
      → (to env t why o).0.manager ≡ (manage o.manager t why).0
  unfolding to
  to_manager t why o = elim (Bool-cases (manage o.manager t why).1) [
    | inl e ↦ rw (e, to) refl
    | inr e ↦ rw (e, to) refl
  ]

  -- An accepted move is announced.
  pub manage_told :
      (m : Manager) {s : SessionState} (t : SessionState) (why : String)
      → m.state ≡ s
      → (manage m t why).1 ≡ true
      → (manage m t why).0.events ≡ change s t why ∷ m.events
  manage_told m t why at ok =
      managed_told m _ t why _ (manage-Managed m t why) ok
      ∙ ap (λ (x : SessionState). change x t why ∷ m.events) at

  pub to_told :
      (p : Orchestrator) {s : SessionState} (t : SessionState) (why : String)
      → state p ≡ s
      → transition s t ≡ some t
      → (to env t why p).0.manager.events ≡ change s t why ∷ p.manager.events
  to_told p t why at ok =
      ap (λ (m : Manager). m.events) (to_manager t why p)
      ∙ manage_told p.manager t why at
          (sym (to_state env p t why).1 ∙ to_accepted env p t why at ok)

  pub to-Announces :
      (t : SessionState) (why : String) (o : Orchestrator)
      → Announces o.manager.events (to env t why o).0.manager.events
  to-Announces t why o =
      subst (λ (m : Manager). Announces o.manager.events m.events) (sym (to_manager t why o))
        (manage-Announces o.manager t why)

  trigger-Announces :
      (why : String) (o : Orchestrator)
      → Announces o.manager.events (trigger env why o).manager.events
  unfolding trigger
  trigger-Announces why o =
      let m = (manage o.manager yielding "barge_in_triggered").0 in
      let first = manage-Announces o.manager yielding "barge_in_triggered" in
      let both =
        Announces-trans o.manager.events m.events first
          (manage-Announces m awaiting_answer "yield_complete") in
      elim (Bool-cases (manage o.manager yielding "barge_in_triggered").1) [
        | inr e ↦ rw (e, trigger) first
        | inl e ↦ elim (Bool-cases (manage m awaiting_answer "yield_complete").1) [
          | inr f ↦ rw (e, f, trigger) both
          | inl f ↦ rw (e, f, trigger) both
        ]
      ]

  after-Announces :
      (g : ℕ) (o : Orchestrator) (tts_failed : Bool)
      → Announces o.manager.events (after_speech env g (o, tts_failed)).manager.events
  unfolding after_speech
  after-Announces g o tts_failed = elim (Bool-cases (is_cancelled o.generations g)) [
    | inl e ↦ rw (e, after_speech) ([], refl)
    | inr e ↦ rw (e, after_speech) (marked tts_failed)
  ]
    where
      marked :
          (failed : Bool)
          → Announces o.manager.events
              (to env awaiting_answer ""
                (if failed then (to env degraded_tts "tts_failed" o).0 else o)).0.manager.events
      marked true =
          let v = (to env degraded_tts "tts_failed" o).0 in
          Announces-trans o.manager.events v.manager.events
            (to-Announces degraded_tts "tts_failed" o) (to-Announces awaiting_answer "" v)
      marked false = to-Announces awaiting_answer "" o

  speech-Announces :
      (g : ℕ) (o : Orchestrator) (e : SpeechEnd)
      → env.speech o.calls ≡ e
      → Announces o.manager.events (after_speech env g (speak env g o)).manager.events
  unfolding speak
  speech-Announces g o spoken e =
      let v = enqueue_chunks env (env.chunks o.calls) g (called env o) in
      let same = (chunks_same env (env.chunks o.calls) g (called env o)).0 in
      rw (e, speak)
        (Announces-trans o.manager.events v.manager.events (same-Announces o.manager v.manager same)
          (after-Announces g v false))
  speech-Announces g o speech_fails e =
      let v = enqueue_chunks env (env.chunks o.calls) g (called env o) in
      let same = (chunks_same env (env.chunks o.calls) g (called env o)).0 in
      let w = note_degraded env tts v in
      rw (e, speak)
        (Announces-trans o.manager.events w.manager.events
          (same-Announces o.manager w.manager (note_state env tts v ∙ same))
          (after-Announces g w true))
  speech-Announces g o barged_in e =
      let v = enqueue_chunks env (env.chunks o.calls) g (called env o) in
      let same = (chunks_same env (env.chunks o.calls) g (called env o)).0 in
      let w = trigger env "vad_speech_detected" v in
      rw (e, speak)
        (Announces-trans o.manager.events w.manager.events
          (Announces-trans o.manager.events v.manager.events
            (same-Announces o.manager v.manager same) (trigger-Announces "vad_speech_detected" v))
          (after-Announces g w false))

  pub begin-Announces :
      (follow_up : Bool) (parent : Option String) (o : Orchestrator)
      → Announces o.manager.events (begin_interviewer_turn env follow_up parent o).manager.events
  unfolding begin_interviewer_turn ask
  begin-Announces follow_up parent o =
      let u = (to env interviewer_turn "" o).0 in
      let (d, q) = decide_question env follow_up parent u in
      let (v, g) = start_speech env q d in
      Announces-trans o.manager.events v.manager.events
        (Announces-trans o.manager.events u.manager.events (to-Announces interviewer_turn "" o) (
          same-Announces u.manager v.manager
            ((start_speech_state env q d).0 ∙ question_state env follow_up parent u)))
        (speech-Announces g v (env.speech v.calls) refl)
