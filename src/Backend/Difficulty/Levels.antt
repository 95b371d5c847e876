-- ===== src/Backend/Difficulty/Levels.antt =====
-- How the difficulty follows the answers of a session.
use praxis_interview_os.Base.{
  ℕ, ◌+◌, ◌-◌, ◌*◌, ◌≤◌, ◌<◌, ◌≡◌, refl, subst, ◌∙◌, ◌⊎◌, inl, List, [], ◌∷◌, Option, none, some,
  min, max, length, arith, All,
}
use praxis_interview_os.Backend.Difficulty.{
  Difficulty, first_state, next_difficulty, Scores, or_first, record_turn_and_adjust, min_level,
  max_level, step_down, double_step_up,
}

-- The row of a session after its turns.
abbrev pub play : Option Difficulty → List Scores → Option Difficulty
play row [] = row
play row (t ∷ ts) = play (some (record_turn_and_adjust t row)) ts

pub record InRange (asked : ℕ) (d : Difficulty) : Type 0 where
  pub lowest : min_level ≤ d.current_level
  pub highest : d.current_level ≤ max_level
  pub one_streak : (d.correct_streak ≡ 0) ⊎ (d.incorrect_streak ≡ 0)
  pub counted : d.questions_asked ≡ asked

turn-InRange :
    (n : ℕ) (t : Scores) (row : Option Difficulty)
    → InRange n (or_first row)
    → InRange (n + 1) (record_turn_and_adjust t row)
unfolding record_turn_and_adjust next_difficulty
turn-InRange n t row i = record {
  lowest = ground (arith, i.lowest, i.highest);
  highest = ground (arith, i.lowest, i.highest);
  one_streak = ground arith;
  counted = ground (arith, i.counted);
}

play-InRange :
    (n : ℕ) (row : Option Difficulty) (ts : List Scores)
    → InRange n (or_first row)
    → InRange (n + length ts) (or_first (play row ts))
play-InRange n row [] i = subst (λ (m : ℕ). InRange m (or_first row)) (omega arith) i
play-InRange n row (t ∷ ts) i =
    subst (λ (m : ℕ). InRange m (or_first (play row (t ∷ ts)))) (omega arith)
      (play-InRange (n + 1) (some (record_turn_and_adjust t row)) ts (turn-InRange n t row i))

-- From a new session on, whatever the scores are, the level stays between 0.10 and 0.95, the turns are
-- counted, and never both streaks are running.
play_bounded : (ts : List Scores) → InRange (length ts) (or_first (play none ts))
unfolding first_state
play_bounded ts =
    subst (λ (m : ℕ). InRange m (or_first (play none ts))) (omega arith)
      (play-InRange 0 none ts (record {
        lowest = omega arith;
        highest = omega arith;
        one_streak = inl refl;
        counted = refl;
      }))

abbrev pub IsDeep : Scores → Type 0
IsDeep t = (600 ≤ t.correctness) × (1300 ≤ t.specificity + t.structure)

abbrev pub IsWrong : Scores → Type 0
IsWrong t = t.correctness < 600

deep_turn :
    (t : Scores) (d : Difficulty)
    → IsDeep t
    → 1 ≤ d.correct_streak
    → let v = record_turn_and_adjust t (some d) in
      (v.current_level ≡ min max_level (d.current_level + double_step_up)) × (1 ≤ v.correct_streak)
unfolding record_turn_and_adjust next_difficulty
deep_turn t d (right, deep) running = ground arith

-- Once a correct answer was given, correct and deep answers raise the level by 0.15 each, up to 0.95.
deep_answers_raise :
    (d : Difficulty) (ts : List Scores)
    → 1 ≤ d.correct_streak
    → d.current_level ≤ max_level
    → All IsDeep ts
    → (or_first (play (some d) ts)).current_level
      ≡ min max_level (d.current_level + double_step_up * length ts)
deep_answers_raise d [] running top deep = omega arith
deep_answers_raise d (t ∷ ts) running top (now, later) =
    let v = record_turn_and_adjust t (some d) in
    let (level, streak) = deep_turn t d now running in
    deep_answers_raise v ts streak (omega (arith, level)) later ∙ (omega (arith, level))

wrong_turn :
    (t : Scores) (d : Difficulty)
    → IsWrong t
    → (record_turn_and_adjust t (some d)).current_level
      ≡ max min_level (d.current_level - step_down)
unfolding record_turn_and_adjust next_difficulty
wrong_turn t d wrong = ground arith

-- Wrong answers lower the level by 0.12 each, down to 0.10.
wrong_answers_lower :
    (d : Difficulty) (ts : List Scores)
    → min_level ≤ d.current_level
    → All IsWrong ts
    → (or_first (play (some d) ts)).current_level
      ≡ max min_level (d.current_level - step_down * length ts)
wrong_answers_lower d [] low wrong = omega arith
wrong_answers_lower d (t ∷ ts) low (now, later) =
    let v = record_turn_and_adjust t (some d) in
    let level = wrong_turn t d now in
    wrong_answers_lower v ts (omega (arith, level)) later ∙ (omega (arith, level))
