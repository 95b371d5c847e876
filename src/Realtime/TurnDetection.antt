-- ===== src/Realtime/TurnDetection.antt =====
-- interview/turn_detection.py, class TurnEndDetector: whether a silence ends the candidate's turn.
use praxis_interview_os.Base.{ℕ, Bool, true, false, String, ltb, strip, word_count, if◌then◌else◌}

-- How the completeness request ends within its 120 ms: with an answer, too late, or by an exception.
pub data Completeness : Type 0 where
  complete incomplete timed_out failed : Completeness

pub data Reason : Type 0 where
  silence_under_threshold silence_over_threshold_short_text mid_sentence_pause : Reason
  silence_and_semantically_complete silence_timeout_fallback silence_error_fallback : Reason
  detector_error_fallback : Reason

pub record TurnEndDecision : Type 0 where
  pub is_turn_end : Bool
  pub reason : Reason

abbrev decide : Bool → Reason → TurnEndDecision
decide b why = record { is_turn_end = b; reason = why }

unfoldable pub by_completeness : Completeness → TurnEndDecision
by_completeness complete = decide true silence_and_semantically_complete
by_completeness incomplete = decide false mid_sentence_pause
by_completeness timed_out = decide true silence_timeout_fallback
by_completeness failed = decide true silence_error_fallback

-- The constructor's default.
abbrev pub silence_threshold_ms : ℕ
silence_threshold_ms = 550

-- evaluate.
unfoldable pub evaluate : Completeness → ℕ → String → TurnEndDecision
unfolding by_completeness
evaluate answer vad_silence_ms partial_transcript =
    if ltb vad_silence_ms silence_threshold_ms
    then decide false silence_under_threshold
    else (if ltb (word_count (strip partial_transcript)) 2
        then decide true silence_over_threshold_short_text
        else by_completeness answer)
