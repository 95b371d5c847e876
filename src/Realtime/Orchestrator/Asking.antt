-- ===== src/Realtime/Orchestrator/Asking.antt =====
-- session/orchestrator.py, begin_interviewer_turn: the question, its speech and its interruption by
-- interview/barge_in.py.
use praxis_interview_os.Base.{
  ℕ, suc, ◌+◌, Bool, true, false, not, Option, none, some, String, get_elem?, if◌then◌else◌,
}
use praxis_interview_os.Realtime.Session.{
  interviewer_turn, awaiting_answer, yielding, degraded_tts, manage,
}
use praxis_interview_os.Realtime.Generation.{start_generation, cancel_current, is_cancelled}
use praxis_interview_os.Realtime.Policy.{InterviewSession, generate_next_turn}
use praxis_interview_os.Realtime.Orchestrator.{
  llm, tts, interviewer_text, audio_chunk, stop_playback, spoken, speech_fails, barged_in, Outside,
  Orchestrator, enqueue_event, called, to, note_degraded, insert_turn,
}

module _ (env : Outside) where
  -- BargeInController.trigger with SessionManager.transition: an exception ends it early.
  unfoldable pub trigger : String → Orchestrator → Orchestrator
  unfolding cancel_current manage
  trigger reason o =
      let cut = record o { generations = cancel_current o.generations reason } in
      let (m, yields) = manage cut.manager yielding "barge_in_triggered" in
      let (n, waits) = manage m awaiting_answer "yield_complete" in
      if not yields
      then record cut { manager = m }
      else (if not waits
          then record cut { manager = n }
          else enqueue_event env (stop_playback reason) (record cut { manager = n }))

  abbrev pub fallback_question : String
  fallback_question =
      "Let's keep going. Can you walk me through a recent project you're proud of and your specific role in it?"

  -- The fallback of begin_interviewer_turn: the next prepared question, or the fixed one.
  unfoldable pub fall_back : InterviewSession → InterviewSession × String
  fall_back s = elim (get_elem? s.prep_pack s.current_question_idx) [
    | some q ↦ (record s { current_question_idx = s.current_question_idx + 1 }, q)
    | none ↦ (s, fallback_question)
  ]

  -- The question of begin_interviewer_turn.
  unfoldable pub decide_question : Bool → Option String → Orchestrator → Orchestrator × String
  unfolding generate_next_turn fall_back note_degraded
  decide_question follow_up parent o =
      let (s, decision) =
        generate_next_turn o.current_candidate_answer follow_up parent (env.policy o.calls)
          o.session in
      let v = record (called env o) { session = s } in
      elim decision [
        | some d ↦ (v, d.response_text)
        | none ↦ (record (note_degraded env llm v) { session = (fall_back s).0 }, (fall_back s).1)
      ]

  unfoldable pub enqueue_chunks : ℕ → ℕ → Orchestrator → Orchestrator
  enqueue_chunks ℕ.zero g o = o
  enqueue_chunks (suc n) g o = enqueue_chunks n g (enqueue_event env (audio_chunk g) o)

  -- The loop over the speech: what is spoken is sent, and a barge-in runs at one of its awaits. The
  -- Boolean is `tts_failed`.
  unfoldable pub speak : ℕ → Orchestrator → Orchestrator × Bool
  unfolding enqueue_chunks trigger note_degraded
  speak g o =
      let v = enqueue_chunks (env.chunks o.calls) g (called env o) in
      elim (env.speech o.calls) [
        | spoken ↦ (v, false)
        | speech_fails ↦ (note_degraded env tts v, true)
        | barged_in ↦ (trigger "vad_speech_detected" v, false)
      ]

  -- begin_interviewer_turn, from the question to the start of its generation, whose number is given.
  unfoldable pub start_speech : String → Orchestrator → Orchestrator × ℕ
  unfolding insert_turn start_generation
  start_speech question o =
      let told =
        enqueue_event env (interviewer_text question)
          (record o { current_candidate_answer = ""; last_interviewer_question = question }) in
      let (kept, id) = insert_turn env "interviewer" question none told in
      let turn_id : String = elim id [ some i ↦ i | none ↦ env.uuid kept.calls ] in
      (
        record (called env kept) {
          last_interviewer_turn_id = some turn_id;
          generations = start_generation kept.generations turn_id;
        },
        kept.generations.made,
      )

  -- The end of begin_interviewer_turn. After a barge-in its controller owns the next transition.
  unfoldable pub after_speech : ℕ → Orchestrator × Bool → Orchestrator
  unfolding to is_cancelled
  after_speech g (said, tts_failed) =
      if is_cancelled said.generations g
      then said
      else (let marked = if tts_failed then (to env degraded_tts "tts_failed" said).0 else said in
          (to env awaiting_answer "" marked).0)

  unfoldable pub ask : String → Orchestrator → Orchestrator
  unfolding start_speech speak after_speech
  ask question o = let (started, g) = start_speech question o in after_speech g (speak g started)

  -- begin_interviewer_turn.
  unfoldable pub begin_interviewer_turn : Bool → Option String → Orchestrator → Orchestrator
  unfolding decide_question ask to
  begin_interviewer_turn follow_up parent o =
      let (v, question) = decide_question follow_up parent (to env interviewer_turn "" o).0 in
      ask question v
