-- ===== src/Realtime/Vad/Events.antt =====
-- The events of the voice activity detector over a sequence of frames.
use praxis_interview_os.Base.{
  ℕ, suc, ◌+◌, ◌≤◌, ◌<◌, ◌≡◌, refl, Bool, true, false, List, [], ◌∷◌, none, some, leb, arith,
  if◌then◌else◌, Bool-cases, inl, inr, ◌∙◌,
}
use praxis_interview_os.Realtime.Vad.{
  Detector, SpeechEvent, speech_start, speech_end, update_state, on_speech, on_silence,
}

-- The events of frame after frame.
abbrev pub listen : Detector → List Bool → Detector × List SpeechEvent
listen d [] = (d, [])
listen d (f ∷ fs) =
    let (v, e) = update_state f d in
    let (last, es) = listen v fs in (last, elim e [ none ↦ es | some x ↦ x ∷ es ])

-- Starts and ends take turns, and the next one is an end exactly when the detector is speaking.
abbrev pub Alternates : Bool → List SpeechEvent → Bool → Type 0
Alternates speaking [] last = speaking ≡ last
Alternates speaking (speech_start ∷ es) last = (speaking ≡ false) × Alternates true es last
Alternates speaking (speech_end ∷ es) last = (speaking ≡ true) × Alternates false es last

-- One frame: no event and the same state, or the event that is next.
update_event :
    (f : Bool) (d : Detector) (es : List SpeechEvent) (last : Bool)
    → Alternates (update_state f d).0.is_speaking es last
    → Alternates d.is_speaking (elim (update_state f d).1 [ none ↦ es | some x ↦ x ∷ es ]) last
unfolding update_state on_speech on_silence
update_event true d es last h = ground arith
update_event false d es last h = ground arith

-- Over any sequence of frames, the events take turns: a start only when the detector is not speaking,
-- an end only when it is, and at the end it is speaking exactly if the last event was a start.
pub events_alternate :
    (d : Detector) (fs : List Bool)
    → Alternates d.is_speaking (listen d fs).1 (listen d fs).0.is_speaking
events_alternate d [] = refl
events_alternate d (f ∷ fs) = update_event f d _ _ (events_alternate (update_state f d).0 fs)

abbrev pub frames : ℕ → Bool → List Bool
frames ℕ.zero f = []
frames (suc n) f = f ∷ frames n f

-- A frame that changes nothing but a count.
record Counts (f : Bool) (speaking : Bool) (d : Detector) : Type 0 where
  quiet : (update_state f d).1 ≡ none
  same : (update_state f d).0.is_speaking ≡ speaking
  positive : (update_state f d).0.positive_count ≡ (if f then suc d.positive_count else 0)
  negative : (update_state f d).0.negative_count ≡ (if f then 0 else suc d.negative_count)
  start_at : (update_state f d).0.consecutive_frames_for_start ≡ d.consecutive_frames_for_start
  end_at : (update_state f d).0.frames_for_end ≡ d.frames_for_end

count_silence : (d : Detector) → d.is_speaking ≡ false → Counts false false d
unfolding update_state on_silence
count_silence d h = record {
  quiet = ground arith;
  same = ground arith;
  positive = ground arith;
  negative = ground arith;
  start_at = ground arith;
  end_at = ground arith;
}

count_pause :
    (d : Detector)
    → d.is_speaking ≡ true
    → suc d.negative_count < d.frames_for_end
    → Counts false true d
unfolding update_state on_silence
count_pause d h small = record {
  quiet = ground arith;
  same = ground arith;
  positive = ground arith;
  negative = ground arith;
  start_at = ground arith;
  end_at = ground arith;
}

count_speech : (d : Detector) → d.is_speaking ≡ true → Counts true true d
unfolding update_state on_speech
count_speech d h = record {
  quiet = ground arith;
  same = ground arith;
  positive = ground arith;
  negative = ground arith;
  start_at = ground arith;
  end_at = ground arith;
}

count_noise :
    (d : Detector)
    → d.is_speaking ≡ false
    → suc d.positive_count < d.consecutive_frames_for_start
    → Counts true false d
unfolding update_state on_speech
count_noise d h small = record {
  quiet = ground arith;
  same = ground arith;
  positive = ground arith;
  negative = ground arith;
  start_at = ground arith;
  end_at = ground arith;
}

ends_at :
    (d : Detector)
    → d.is_speaking ≡ true
    → d.frames_for_end ≤ suc d.negative_count
    → ((update_state false d).1 ≡ some speech_end) × ((update_state false d).0.is_speaking ≡ false)
unfolding update_state on_silence
ends_at d h full = ground arith

starts_at :
    (d : Detector)
    → d.is_speaking ≡ false
    → d.consecutive_frames_for_start ≤ suc d.positive_count
    → ((update_state true d).1 ≡ some speech_start) × ((update_state true d).0.is_speaking ≡ true)
unfolding update_state on_speech
starts_at d h full = ground arith

-- Once the state is the frames' own, no event follows.
settled_silence :
    (d : Detector) (n : ℕ) → d.is_speaking ≡ false → (listen d (frames n false)).1 ≡ []
settled_silence d ℕ.zero h = refl
settled_silence d (suc n) h =
    let c = count_silence d h in
    rw (c.quiet, listen) (settled_silence (update_state false d).0 n c.same)

settled_speech : (d : Detector) (n : ℕ) → d.is_speaking ≡ true → (listen d (frames n true)).1 ≡ []
settled_speech d ℕ.zero h = refl
settled_speech d (suc n) h =
    let c = count_speech d h in
    rw (c.quiet, listen) (settled_speech (update_state true d).0 n c.same)

-- While a candidate speaks, silence ends the speech after exactly as many frames as are configured,
-- counted from the last frame of speech, and the end is reported once.
silence_ends_once :
    (d : Detector) (n : ℕ)
    → d.is_speaking ≡ true
    → d.negative_count < d.frames_for_end
    → (listen d (frames n false)).1
      ≡ (if leb d.frames_for_end (d.negative_count + n) then speech_end ∷ [] else [])
silence_ends_once d ℕ.zero h small = ground arith
silence_ends_once d (suc n) h small =
    elim (Bool-cases (leb d.frames_for_end (suc d.negative_count))) [
      | inl e ↦
          let (event, silent) = ends_at d h (ground arith) in
          rw (event, listen) (rw (settled_silence (update_state false d).0 n silent) (ground arith))
      | inr e ↦
          let c = count_pause d h (ground arith) in
          rw (c.quiet, listen)
            (silence_ends_once (update_state false d).0 n c.same
                (ground (arith, c.negative, c.end_at))
              ∙ (ground (arith, c.negative, c.end_at)))
    ]

-- A candidate who is silent is heard after exactly as many frames of speech in a row as are
-- configured, and the start is reported once.
speech_starts_once :
    (d : Detector) (n : ℕ)
    → d.is_speaking ≡ false
    → d.positive_count < d.consecutive_frames_for_start
    → (listen d (frames n true)).1 ≡ (
        if leb d.consecutive_frames_for_start (d.positive_count + n) then speech_start ∷ [] else [])
speech_starts_once d ℕ.zero h small = ground arith
speech_starts_once d (suc n) h small =
    elim (Bool-cases (leb d.consecutive_frames_for_start (suc d.positive_count))) [
      | inl e ↦
          let (event, loud) = starts_at d h (ground arith) in
          rw (event, listen) (rw (settled_speech (update_state true d).0 n loud) (ground arith))
      | inr e ↦
          let c = count_noise d h (ground arith) in
          rw (c.quiet, listen)
            (speech_starts_once (update_state true d).0 n c.same
                (ground (arith, c.positive, c.start_at))
              ∙ (ground (arith, c.positive, c.start_at)))
    ]
