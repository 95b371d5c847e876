-- ===== src/Realtime/Coaching.antt =====
-- coaching/accumulator.py, the state of CoachingMetricsAccumulator: one turn's text and its pauses.
-- Times are in milliseconds; the numbers it emits every 250 ms are not part of the model.
use praxis_interview_os.Base.{
  ℕ, ◌-◌, Bool, true, false, List, [], ◌∷◌, ◌++◌, String, ltb, str_eq, if◌then◌else◌,
}

pub record Coaching : Type 0 where
  pub is_active : Bool
  pub updating : Bool
  pub turn_start_ts : ℕ
  pub current_text : String
  pub vad_silence_gaps : List ℕ
  pub last_speech_end_ts : ℕ

-- __init__.
unfoldable pub new_coaching : Coaching
new_coaching = record {
  is_active = false;
  updating = false;
  turn_start_ts = 0;
  current_text = "";
  vad_silence_gaps = [];
  last_speech_end_ts = 0;
}

-- start_turn.
unfoldable pub start_turn : ℕ → Coaching → Coaching
start_turn now c = record {
  is_active = true;
  updating = true;
  turn_start_ts = now;
  current_text = "";
  vad_silence_gaps = [];
  last_speech_end_ts = now;
}

-- end_turn.
unfoldable pub end_turn : Coaching → Coaching
end_turn c = record c { is_active = false; updating = false }

-- update_text.
unfoldable pub update_text : String → Coaching → Coaching
update_text t c = record c { current_text = t }

-- register_vad_event.
unfoldable pub register_vad_event : ℕ → String → Coaching → Coaching
register_vad_event now event c =
    if str_eq event "speech_end"
    then record c { last_speech_end_ts = now }
    else (if str_eq event "speech_start"
        then (if ltb 0 c.last_speech_end_ts
            then (if ltb 50 (now - c.last_speech_end_ts)
                then record c {
                  vad_silence_gaps = c.vad_silence_gaps ++ (now - c.last_speech_end_ts) ∷ [];
                }
                else c)
            else c)
        else c)
