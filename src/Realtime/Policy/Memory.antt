-- ===== src/Realtime/Policy/Memory.antt =====
-- How large the interviewer's memory grows, what a compression keeps, and how the questions advance.
use praxis_interview_os.Base.{
  ℕ, ◌+◌, ◌-◌, ◌≤◌, ◌<◌, ◌≡◌, refl, false, List, [], ◌∷◌, ◌++◌, Option, none, some, String, leb,
  length, length-append, length-drop, take-append-drop, min, arith, Bool-cases, Option-cases, inl,
  inr, if◌then◌else◌, ap, ◌∙◌,
}
use praxis_interview_os.Realtime.Policy.{
  PolicyDecision, SessionMemory, add_turn, but_last_three, summarised, compress, InterviewSession,
  Answers, remember, conclude_turn, generate_next_turn,
}

length-compress :
    (a : Option String) (m : SessionMemory)
    → m.turn_count_threshold ≡ 6
    → length (compress a m).turns ≤ 6
unfolding compress
length-compress a m t = ground (arith, length-drop (length m.turns - 3) m.turns)

compress_threshold :
    (a : Option String) (m : SessionMemory)
    → (compress a m).turn_count_threshold ≡ m.turn_count_threshold
unfolding compress
compress_threshold a m = ground arith

-- A compression of a memory over its threshold of at least three keeps the newest three turns, in
-- their order: the turns before it are those that are summarised, followed by those that are kept.
compress_keeps_newest :
    (a : Option String) (m : SessionMemory)
    → m.turn_count_threshold < length m.turns
    → 3 ≤ m.turn_count_threshold
    → (but_last_three m.turns ++ (compress a m).turns ≡ m.turns)
      × (length (compress a m).turns ≡ 3)
      × ((compress a m).compressed_summary ≡ summarised a m)
unfolding compress
compress_keeps_newest a m over big =
    elim (Bool-cases (leb (length m.turns) m.turn_count_threshold)) [
      | inl e ↦ absurd (ground arith)
      | inr e ↦ rw e (
        take-append-drop (length m.turns - 3) m.turns,
        ground (arith, length-drop (length m.turns - 3) m.turns),
        refl,
      )
    ]

abbrev pub Answer : Type 0
Answer = String × Answers

-- A conversation: the candidate's answers, with what the language model makes of each.
abbrev pub converse : InterviewSession → List Answer → InterviewSession
converse s [] = s
converse s ((text, oracle) ∷ rest) = converse (generate_next_turn text false none oracle s).0 rest

-- The answers after which the interviewer moves on.
abbrev pub moves_on : Option PolicyDecision → ℕ
moves_on none = 0
moves_on (some d) = if d.is_clarifying_follow_up then 0 else 1

abbrev pub moves : List Answer → ℕ
moves [] = 0
moves ((text, oracle) ∷ rest) = moves_on oracle.decision + moves rest

remember_memory :
    (text : String) (oracle : Option String) (s : InterviewSession)
    → s.memory.turn_count_threshold ≡ 6
    → let v = remember text false none oracle s in
      (length v.memory.turns ≤ 6) × (v.memory.turn_count_threshold ≡ 6)
unfolding remember add_turn
remember_memory text oracle s t = (length-compress oracle _ t, compress_threshold oracle _ ∙ t)

conclude_memory :
    (d : PolicyDecision) (s : InterviewSession)
    → (length (conclude_turn d s).memory.turns ≡ length s.memory.turns + 1)
      × ((conclude_turn d s).memory.turn_count_threshold ≡ s.memory.turn_count_threshold)
unfolding conclude_turn add_turn
conclude_memory d s = (length-append s.memory.turns _, refl)

next_memory :
    (text : String) (oracle : Answers) (s : InterviewSession)
    → s.memory.turn_count_threshold ≡ 6
    → let v = (generate_next_turn text false none oracle s).0 in
      (length v.memory.turns ≤ 7) × (v.memory.turn_count_threshold ≡ 6)
unfolding generate_next_turn
next_memory text oracle s t =
    let v = remember text false none oracle.summary s in
    let (short, same) = remember_memory text oracle.summary s t in
    elim (Option-cases oracle.decision) [
      | inl e ↦ rw e (ground arith)
      | inr (d, e) ↦ rw e (ground (arith, conclude_memory d v))
    ]

remember_index :
    (text : String) (oracle : Option String) (s : InterviewSession)
    → let v = remember text false none oracle s in
      (v.prep_pack ≡ s.prep_pack) × (v.current_question_idx ≡ s.current_question_idx)
unfolding remember
remember_index text oracle s = (refl, refl)

next_index :
    (text : String) (oracle : Answers) (s : InterviewSession)
    → let v = (generate_next_turn text false none oracle s).0 in
      (v.prep_pack ≡ s.prep_pack)
      × (s.current_question_idx ≤ length s.prep_pack
          → v.current_question_idx
            ≡ min (length s.prep_pack) (s.current_question_idx + moves_on oracle.decision))
unfolding generate_next_turn remember conclude_turn
next_index text oracle s = elim (Option-cases oracle.decision) [
  | inl e ↦ rw e (refl, λ h. omega arith)
  | inr (d, e) ↦ rw e (refl, λ h. ground arith)
]

-- However long the conversation, and whether or not the requests to the language model succeed, the
-- memory never holds more than seven turns, and the next prepared question is the one after as many
-- as the interviewer has moved on from, or the end of the pack: none is skipped and none repeated.
pub converse_bounded :
    (s : InterviewSession) (answers : List Answer)
    → s.memory.turn_count_threshold ≡ 6
    → length s.memory.turns ≤ 7
    → s.current_question_idx ≤ length s.prep_pack
    → let v = converse s answers in
      (length v.memory.turns ≤ 7)
      × (v.prep_pack ≡ s.prep_pack)
      × (v.current_question_idx ≡ min (length s.prep_pack) (s.current_question_idx + moves answers))
converse_bounded s [] t small h = (small, refl, omega arith)
converse_bounded s ((text, oracle) ∷ rest) t small h =
    let v = (generate_next_turn text false none oracle s).0 in
    let (small', t') = next_memory text oracle s t in
    let (pack, index) = next_index text oracle s in
    let at = index h in
    let same : length v.prep_pack ≡ length s.prep_pack = ap length pack in
    let (a, b, c) = converse_bounded v rest t' small' (omega arith) in
    (a, b ∙ pack, c ∙ (omega arith))
