-- ===== src/Backend/Difficulty.antt =====
-- services/adaptive_difficulty.py: the difficulty of the next question. Levels, scores and thresholds
-- are in thousandths; the arithmetic is exact where the source's is in floating point.
pub mod Levels
use praxis_interview_os.Base.{
  ℕ, suc, ◌+◌, ◌-◌, ◌&&◌, Bool, true, false, Option, none, some, leb, ltb, min, max, if◌then◌else◌,
}

abbrev pub min_level : ℕ
min_level = 100

abbrev pub max_level : ℕ
max_level = 950

abbrev pub step_up : ℕ
step_up = 80

abbrev pub step_down : ℕ
step_down = 120

abbrev pub double_step_up : ℕ
double_step_up = 150

-- A row of session_difficulty_state.
pub record Difficulty : Type 0 where
  pub current_level : ℕ
  pub questions_asked : ℕ
  pub correct_streak : ℕ
  pub incorrect_streak : ℕ

-- The state of a session without a row.
unfoldable pub first_state : Difficulty
first_state = record {
  current_level = 500;
  questions_asked = 0;
  correct_streak = 0;
  incorrect_streak = 0;
}

-- _next_difficulty. `twice_depth` is the sum that the source halves, so that its threshold is 1300.
unfoldable pub next_difficulty : ℕ → ℕ → ℕ → ℕ → ℕ → ℕ × ℕ × ℕ
next_difficulty current correctness twice_depth correct_streak incorrect_streak =
    if leb 600 correctness
    then (if leb 1300 twice_depth
        then (
          min max_level
              (current + (if leb 2 (correct_streak + 1) then double_step_up else step_up)),
          correct_streak + 1,
          0,
        )
        else (current, correct_streak + 1, 0))
    else (max min_level (current - step_down), 0, incorrect_streak + 1)

pub record Scores : Type 0 where
  pub correctness : ℕ
  pub specificity : ℕ
  pub structure : ℕ

abbrev pub or_first : Option Difficulty → Difficulty
or_first none = first_state
or_first (some d) = d

-- record_turn_and_adjust: the row of the session after one scored turn.
unfoldable pub record_turn_and_adjust : Scores → Option Difficulty → Difficulty
unfolding next_difficulty first_state
record_turn_and_adjust t row =
    let d = or_first row in
    let (level, correct, incorrect) =
      next_difficulty d.current_level t.correctness (t.specificity + t.structure) d.correct_streak
        d.incorrect_streak in
    record {
      current_level = level;
      questions_asked = d.questions_asked + 1;
      correct_streak = correct;
      incorrect_streak = incorrect;
    }

pub data Label : Type 0 where
  easy medium hard very_hard : Label

-- _level_label.
unfoldable pub level_label : ℕ → Label
level_label level =
    if ltb level 350
    then easy
    else (if ltb level 550 then medium else (if ltb level 750 then hard else very_hard))
