-- ===== src/Backend/Sm2.antt =====
-- services/sm2.py, calculate_sm2: the spaced repetition of study cards. Intervals are in hundredths of
-- a day and ease factors in thousandths, the precision that the function rounds to; the arithmetic is
-- exact where the source's is in floating point.
pub mod Schedule
use praxis_interview_os.Base.{
  ℕ, suc, ◌+◌, ◌-◌, ◌*◌, ◌/◌, ◌%◌, Bool, true, false, Option, none, some, ltb, ◌==◌, max,
  if◌then◌else◌,
}

-- `round(x / n)`: to the nearest, and from the middle to the even one.
unfoldable pub round_div : ℕ → ℕ → ℕ
round_div x n =
    let q = x / n in
    let twice = 2 * (x % n) in
    if ltb twice n then q else (if ltb n twice then q + 1 else (if (q % 2) == 0 then q else q + 1))

-- `previous_ease_factor + (0.1 - (5 - quality) * (0.08 + (5 - quality) * 0.02))`, at least 1.3.
unfoldable pub ease : ℕ → ℕ → ℕ
ease quality previous = let d = 5 - quality in max 1300 (previous + 100 - d * (80 + d * 20))

pub record Card : Type 0 where
  pub interval : ℕ
  pub repetitions : ℕ
  pub ease_factor : ℕ

-- The interval after a success.
unfoldable pub next_interval : ℕ → ℕ → ℕ → ℕ
unfolding round_div
next_interval repetitions previous ef =
    if repetitions == 1
    then 100
    else (if repetitions == 2 then 600 else round_div (previous * ef) 1000)

-- calculate_sm2: `none` is the ValueError.
unfoldable pub calculate_sm2 : ℕ → Card → Option Card
unfolding ease next_interval
calculate_sm2 quality c =
    if ltb 5 quality
    then none
    else (let ef = ease quality c.ease_factor in
        if ltb quality 3
        then some (record { interval = 100; repetitions = 0; ease_factor = ef })
        else some (record {
          interval = next_interval (c.repetitions + 1) c.interval ef;
          repetitions = c.repetitions + 1;
          ease_factor = ef;
        }))
