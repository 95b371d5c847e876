-- ===== src/Tests/Session.antt =====
-- Runs of the session state machine.
use praxis_interview_os.Base.{ℕ, ◌≡◌, refl, Bool, true, List, [], ◌∷◌, String, length}
use praxis_interview_os.Realtime.Session.{
  SessionState, preflight, scoring, stopped, new_manager, manage, run,
}
use praxis_interview_os.Realtime.Session.Audit.{Managed, manage-Managed, run_audited}

abbrev always_up : ℕ → Bool
always_up n = true

abbrev requests : List (SessionState × String)
requests = (preflight, "start") ∷ (scoring, "too early") ∷ (stopped, "user") ∷ []

manage-Managed_example :
    Managed
      (new_manager always_up)
      scoring
      "too early"
      (manage (new_manager always_up) scoring "too early").0
      (manage (new_manager always_up) scoring "too early").1
manage-Managed_example = manage-Managed (new_manager always_up) scoring "too early"

run_audited_example : length (run (new_manager always_up) requests).log ≡ 3
unfolding new_manager
run_audited_example = run_audited (new_manager always_up) requests (λ n. refl)

-- The same run, by evaluation.
requests_end : (run (new_manager always_up) requests).state ≡ stopped
unfolding run new_manager
requests_end = refl
