-- ===== src/Tests/Services.antt =====
-- Runs of the backend's services.
use praxis_interview_os.Base.{ℕ, String, some, ◌≡◌, refl, List, [], ◌∷◌, arith}
use praxis_interview_os.Redis.Memory.{memory, empty, counter}
use praxis_interview_os.Backend.Sm2.{Card}
use praxis_interview_os.Backend.Sm2.Schedule.{IsSound, review_all, reviews-IsSound}
use praxis_interview_os.Backend.Idempotency.{check_idempotency, returns, raises, crashes}
use praxis_interview_os.Backend.Idempotency.Once.{
  Attempt, times_done, until_success, done_until_success,
}
use praxis_interview_os.Backend.RateLimiter.Window.{by_own_limit, answers, window_exact}

abbrev card : Card
card = record { interval = 600; repetitions = 2; ease_factor = 2500 }

reviews-IsSound_example : IsSound (review_all card (4 ∷ 0 ∷ 9 ∷ 5 ∷ []))
reviews-IsSound_example =
    reviews-IsSound card (4 ∷ 0 ∷ 9 ∷ 5 ∷ []) (record { a_day = omega arith; grows = omega arith })

abbrev attempts : List Attempt
attempts =
    record { key = "cards:1"; job_type = "study"; outcome = crashes }
    ∷ record { key = "cards:2"; job_type = "study"; outcome = returns }
    ∷ record { key = "cards:1"; job_type = "study"; outcome = returns }
    ∷ record { key = "cards:1"; job_type = "study"; outcome = raises }
    ∷ []

done_until_success_example : times_done "cards:1" [] attempts ≡ until_success "cards:1" attempts
unfolding check_idempotency
done_until_success_example = done_until_success "cards:1" attempts [] refl

-- It is done twice: after the crash once more.
attempts_done : until_success "cards:1" attempts ≡ 2
attempts_done = refl

abbrev paths : List (ℕ × String)
paths = (5, "/api/v1/health") ∷ (5, "/api/v1/exports") ∷ (5, "/api/v1/health") ∷ []

window_exact_example : answers memory (some "u") "ip" 600_000 paths empty ≡ by_own_limit 0 paths
unfolding memory empty counter
window_exact_example =
    window_exact memory (some "u") "ip" 10 600_000 paths empty (omega arith) (omega arith) refl
