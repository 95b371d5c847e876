-- ===== src/Tests/Transport.antt =====
-- Runs of the transport: binary frames, a pause, a text answer and a reconnect, while everything fails.
use praxis_interview_os.Base.{
  ℕ, ◌≡◌, refl, ◌⊎◌, inr, true, false, List, [], ◌∷◌, none, some, arith, str_eq, ◌++◌,
}
use praxis_interview_os.Realtime.Orchestrator.Turns.Announced.{change}
use praxis_interview_os.Realtime.Session.{
  ready, interviewer_turn, reconnecting, awaiting_answer, stopped,
}
use praxis_interview_os.Realtime.Orchestrator.{interviewer_text}
use praxis_interview_os.Realtime.Orchestrator.Turns.Progress.{state}
use praxis_interview_os.Realtime.Orchestrator.Turns.Settled.{Settled}
use praxis_interview_os.Realtime.Frames.{accepted as frame_accepted, receive_frame}
use praxis_interview_os.Realtime.Frames.Sequence.{received, Rises, received-Rises}
use praxis_interview_os.Realtime.Frames.Packed.{pack, pack-receive_frame}
use praxis_interview_os.Realtime.Transport.{snapshot, resume, receive_message, text_answer}
use praxis_interview_os.Realtime.Transport.Resumption.{
  TellsTurn, resumes_where_left, text_answer_settles,
}
use praxis_interview_os.Tests.Interview.{failing, in_state}

abbrev samples : List ℕ
samples = 7 ∷ 0 ∷ 9 ∷ 0 ∷ []

-- The second frame repeats a number, the third lacks a byte.
abbrev frames : List (List ℕ)
frames =
    pack 5 0 0 samples
    ∷ pack 5 0 0 samples
    ∷ (pack 6 0 0 [] ++ 1 ∷ [])
    ∷ pack 70_000 0 0 samples
    ∷ []

frames_received : received none frames ≡ (5, samples) ∷ (70_000, samples) ∷ []
unfolding receive_frame
frames_received = refl

received-Rises_example : Rises none (received none frames)
received-Rises_example = received-Rises none frames

pack-receive_frame_example :
    receive_frame (some 5) (pack 70_000 1 2 samples) ≡ (some 70_000, frame_accepted 70_000 samples)
pack-receive_frame_example =
    pack-receive_frame (some 5) 70_000 1 2 samples (omega arith) (omega arith) (omega arith, refl)

resumes_where_left_example :
    let v = resume failing (snapshot (in_state awaiting_answer)) (in_state stopped) in
    (state v ≡ awaiting_answer)
    × ((str_eq "Tell me about a project." "" ≡ true)
        ⊎ ((v.session.current_question_idx ≡ 1)
            × (v.last_interviewer_question ≡ "Tell me about a project.")
            × (v.events ≡ interviewer_text "Tell me about a project." ∷ [])
            × (v.manager.events
                ≡ change interviewer_turn awaiting_answer "resume"
                  ∷ change ready interviewer_turn "resume"
                  ∷ change reconnecting ready "reconnected"
                  ∷ (in_state stopped).manager.events)))
resumes_where_left_example =
    resumes_where_left failing (in_state awaiting_answer) (in_state stopped)

text_answer_settles_example :
    let o = in_state awaiting_answer in
    let v = (receive_message failing (text_answer "I built a compiler.") o).0 in
    Settled v × (v.turn_lock ≡ false) × TellsTurn failing o v.manager.events
text_answer_settles_example =
    text_answer_settles failing "I built a compiler." (in_state awaiting_answer) (inr refl) refl
