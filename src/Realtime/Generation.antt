-- ===== src/Realtime/Generation.antt =====
-- interview/generation.py, class SessionGenerationManager, with CancellationToken of the gateway's
-- cancellation.py. A token is shared by the manager and the task that speaks, so tokens live in a store.
pub mod Live
use praxis_interview_os.Base.{
  ℕ, suc, Bool, true, false, List, [], ◌∷◌, Option, none, some, String, if◌then◌else◌, ◌==◌, str_eq,
}

-- GenerationContext; its token has the generation's number.
pub record GenerationContext : Type 0 where
  pub generation_id : ℕ
  pub turn_id : String

-- The manager and the tokens: how many were made, and the reason for which each was cancelled.
pub record Generations : Type 0 where
  pub current_context : Option GenerationContext
  pub made : ℕ
  pub reason : ℕ → Option String

-- SessionGenerationManager.__init__.
unfoldable pub no_generation : Generations
no_generation = record { current_context = none; made = 0; reason = λ g. none }

-- CancellationToken.is_cancelled.
unfoldable pub is_cancelled : Generations → ℕ → Bool
is_cancelled gs g = elim (gs.reason g) [ none ↦ false | some r ↦ true ]

-- CancellationToken.cancel.
unfoldable pub cancel : Generations → ℕ → String → Generations
cancel gs g why = record gs { reason = λ h. if h == g then some why else gs.reason h }

unfoldable pub cancel_unless : Generations → ℕ → String → Generations
unfolding cancel is_cancelled
cancel_unless gs g why = if is_cancelled gs g then gs else cancel gs g why

-- cancel_current.
unfoldable pub cancel_current : Generations → String → Generations
unfolding cancel_unless
cancel_current gs why = elim (gs.current_context) [
  | none ↦ gs
  | some c ↦ cancel_unless gs c.generation_id why
]

-- start_generation: the number `made` is the new generation's.
unfoldable pub start_generation : Generations → String → Generations
unfolding cancel_current
start_generation gs turn =
    let old = cancel_current gs "superseded" in
    record {
      current_context = some (record { generation_id = old.made; turn_id = turn });
      made = suc old.made;
      reason = λ h. if h == old.made then none else old.reason h;
    }

-- is_current.
unfoldable pub is_current : Generations → ℕ → Bool
is_current gs g = elim (gs.current_context) [ none ↦ false | some c ↦ c.generation_id == g ]
