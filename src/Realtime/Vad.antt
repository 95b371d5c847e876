-- ===== src/Realtime/Vad.antt =====
-- audio/vad.py, class VoiceActivityDetector: from frames of sound to the events speech_start and
-- speech_end. Whether one frame is speech is the answer of the Silero model, which is not part of the
-- repository: here it is the input.
pub mod Events
use praxis_interview_os.Base.{
  ℕ, suc, ◌+◌, ◌/◌, ◌-◌, ◌&&◌, Bool, true, false, not, Option, none, some, leb, ltb, if◌then◌else◌,
}

pub record Detector : Type 0 where
  pub consecutive_frames_for_start : ℕ
  pub frames_for_end : ℕ
  pub positive_count : ℕ
  pub negative_count : ℕ
  pub is_speaking : Bool

pub data SpeechEvent : Type 0 where
  speech_start speech_end : SpeechEvent

-- __init__ with the number of frames for a start, and `int(silence_duration_ms / frame_duration_ms)`.
unfoldable pub new_detector : ℕ → ℕ → ℕ → Detector
new_detector start_frames silence_duration_ms frame_duration_ms = record {
  consecutive_frames_for_start = start_frames;
  frames_for_end = silence_duration_ms / frame_duration_ms;
  positive_count = 0;
  negative_count = 0;
  is_speaking = false;
}

-- reset_state.
unfoldable pub reset_state : Detector → Detector
reset_state d = record d { positive_count = 0; negative_count = 0; is_speaking = false }

-- The branch of _update_state for a frame of speech.
unfoldable pub on_speech : Detector → Detector × Option SpeechEvent
on_speech d =
    let v = record d { positive_count = suc d.positive_count; negative_count = 0 } in
    if not v.is_speaking && leb v.consecutive_frames_for_start v.positive_count
    then (record v { is_speaking = true }, some speech_start)
    else (v, none)

-- The branch of _update_state for a frame of silence.
unfoldable pub on_silence : Detector → Detector × Option SpeechEvent
on_silence d =
    let v = record d { negative_count = suc d.negative_count; positive_count = 0 } in
    if v.is_speaking && leb v.frames_for_end v.negative_count
    then (record v { is_speaking = false }, some speech_end)
    else (v, none)

-- _update_state.
unfoldable pub update_state : Bool → Detector → Detector × Option SpeechEvent
unfolding on_speech on_silence
update_state is_speech d = if is_speech then on_speech d else on_silence d

abbrev pub frame_size_bytes : ℕ
frame_size_bytes = 1024

-- process_frame over a buffer that holds `buffered` bytes: the bytes that stay, and whether a frame
-- was taken out and judged.
unfoldable pub process_frame : ℕ → ℕ → Bool → Detector → ℕ × Detector × Option SpeechEvent
unfolding update_state
process_frame buffered received is_speech d =
    let size = buffered + received in
    if ltb size frame_size_bytes
    then (size, d, none)
    else (size - frame_size_bytes, (update_state is_speech d).0, (update_state is_speech d).1)
