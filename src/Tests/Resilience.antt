-- ===== src/Tests/Resilience.antt =====
-- Runs of the breaker, the retry loop and the budget, over a store in memory.
use praxis_interview_os.Base.{
  ℕ, ◌≤◌, ◌<◌, ◌≡◌, refl, ◌⊎◌, true, false, List, [], ◌∷◌, none, some, arith,
}
use praxis_interview_os.Redis.Memory.{memory, empty, get, counter}
use praxis_interview_os.Gateway.World.{World, wait}
use praxis_interview_os.Gateway.Breaker.{Breaker, get_state, record_failure, can_execute}
use praxis_interview_os.Gateway.Breaker.States.{open_for_cooldown}
use praxis_interview_os.Gateway.Retries.{
  Surroundings, CallResult, success, failure, server_error, done, exhausted, with_retries,
}
use praxis_interview_os.Gateway.Retries.Outcomes.{
  Explains, IsRetried, with_retries_explained, with_retries-Succeeds,
}
use praxis_interview_os.Gateway.Budget.{default_daily_cap}
use praxis_interview_os.Gateway.Budget.Caps.{daily, Request, serve_all, serve_all_within_cap}

abbrev pub fresh : World memory
fresh = record { now = 0; store = empty; health = []; usage = []; db_up = λ n. true; writes = 0 }

abbrev groq : Breaker
groq = record {
  provider_name = "groq";
  capability = "generate";
  max_failures = 1;
  cooldown_seconds = 30;
}

open_for_cooldown_example :
    let v = wait memory 29_999 (record_failure memory groq fresh) in
    can_execute memory groq v ≡ (v, false)
unfolding memory empty get counter get_state
open_for_cooldown_example = open_for_cooldown memory groq fresh 29_999 (omega arith) refl

abbrev first_fails : ℕ → CallResult ℕ
first_fails n = elim n [ ℕ.zero ↦ failure server_error | ℕ.suc k ↦ success 7 ]

abbrev flaky : Surroundings ℕ
flaky = record {
  call = first_fails;
  took = λ n. 100;
  is_cancelled = λ n. false;
  jitter = λ n. 10;
  cancelled_in_delay = λ n. false;
}

with_retries_explained_example :
    let res = (with_retries memory flaky groq 2 200 fresh).1 in
    Explains flaky 2 0 res ⊎ ((res ≡ exhausted none) × ((can_execute memory groq fresh).1 ≡ false))
with_retries_explained_example = with_retries_explained memory flaky groq 2 200 fresh

first_only : (i : ℕ) → 0 ≤ i → i < 1 → IsRetried (flaky.call i)
first_only ℕ.zero l h = refl
first_only (ℕ.suc i) l h = absurd (omega arith)

with_retries-Succeeds_example : (with_retries memory flaky groq 2 200 fresh).1 ≡ done 7
unfolding memory empty get can_execute
with_retries-Succeeds_example =
    with_retries-Succeeds memory flaky groq 2 200 1 7 fresh refl (record {
      in_order = omega arith;
      within = omega arith;
      result = refl;
      earlier = first_only;
      never_cancelled = λ i. refl;
      never_cancelled_in_delay = λ i. refl;
    })

abbrev calls : List Request
calls =
    record { session = none; delay = 5; estimated = 3_000_000_000; actual = 2_500_000_000 }
    ∷ record { session = some "s"; delay = 5; estimated = 3_000_000_000; actual = 2_500_000_000 }
    ∷ []

serve_all_within_cap_example :
    daily memory "u" "2026-01-01" (serve_all memory "u" "2026-01-01" fresh calls)
    ≤ default_daily_cap
unfolding memory empty counter
serve_all_within_cap_example =
    serve_all_within_cap memory "u" "2026-01-01" fresh calls (omega arith) (omega arith)
