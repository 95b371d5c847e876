-- ===== src/Tests/Voice.antt =====
-- Runs of the voice activity detector, the generations, the lock and the grounding of claims.
use praxis_interview_os.Base.{
  ℕ, map, ◌≡◌, refl, Bool, true, false, List, [], ◌∷◌, Option, none, String,
}
use praxis_interview_os.Redis.Memory.{memory}
use praxis_interview_os.Realtime.Vad.{Detector, new_detector}
use praxis_interview_os.Realtime.Vad.Events.{listen, Alternates, events_alternate}
use praxis_interview_os.Realtime.Lock.Exclusion.{
  Request, acquires, starts_renewal, starts_release, goes_on,
}
use praxis_interview_os.Realtime.Claims.{
  unsupported, partially_supported, uncertain, check_grounding,
}
use praxis_interview_os.Realtime.Claims.Grounding.{
  Reply, by_schema, by_word, retrieved, decisive, said, first_evidence_decides,
}

abbrev detector : Detector
detector = record {
  consecutive_frames_for_start = 3;
  frames_for_end = 17;
  positive_count = 3;
  negative_count = 0;
  is_speaking = true;
}

-- 550 ms of silence in frames of 32 ms.
silence_frames : (new_detector 3 550 32).frames_for_end ≡ 17
unfolding new_detector
silence_frames = refl

events_alternate_example :
    let run = listen detector (true ∷ false ∷ false ∷ []) in Alternates true run.1 run.0.is_speaking
events_alternate_example = events_alternate detector (true ∷ false ∷ false ∷ [])

abbrev rivals : List (ℕ × Request memory "s")
rivals =
    (10_000, acquires "b")
    ∷ (5_000, starts_release "b")
    ∷ (5_000, starts_renewal "b")
    ∷ (1_000, goes_on 1)
    ∷ (1_000, goes_on 0)
    ∷ []

abbrev found : List (String × Reply)
found =
    ("c1", by_schema unsupported 80 none)
    ∷ ("c2", by_word uncertain)
    ∷ ("c3", by_word partially_supported)
    ∷ []

first_evidence_decides_example :
    let v = check_grounding (map retrieved found) in
    ◌≡◌ {A = Bool × Option String} (v.is_supported, v.source_chunk_id) (said (decisive found))
first_evidence_decides_example = first_evidence_decides found (tt, (tt, (tt, tt)))
