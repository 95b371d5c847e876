-- ===== src/Gateway/Budget.antt =====
-- budget.py, class BudgetGuard: consent to paid providers, and the daily and per-session caps.
-- Money is counted in billionths of a dollar.
pub mod Caps
use praxis_interview_os.Base.{
  ℕ, ◌+◌, Bool, true, false, Option, none, some, String, ltb, if◌then◌else◌, str_eq,
}
use praxis_interview_os.Redis.{Redis, RedisKey, budget_daily, budget_session}
use praxis_interview_os.Gateway.World.{World}

-- The two queries of check_consent; `none` is a query that raises.
pub record ConsentTables : Type 0 where
  pub connected : Bool
  pub paid_before : String → Option Bool
  pub acknowledged : String → Option Bool

abbrev acknowledged_or_not : Option Bool → Bool
acknowledged_or_not none = false
acknowledged_or_not (some a) = a

-- check_consent: `false` stands for ConsentRequiredError.
unfoldable pub check_consent : ConsentTables → String → Bool
check_consent c user =
    if c.connected
    then elim (c.paid_before user) [
      | none ↦ false
      | some true ↦ true
      | some false ↦ acknowledged_or_not (c.acknowledged user)
    ]
    else false

-- BudgetGuard.__init__: 5.00 and 1.00 dollars.
abbrev pub default_daily_cap : ℕ
default_daily_cap = 5_000_000_000

abbrev pub default_session_cap : ℕ
default_session_cap = 1_000_000_000

-- `if session_id`: an empty id counts as none.
unfoldable pub truthy : Option String → Option String
truthy none = none
truthy (some s) = if str_eq s "" then none else some s

pub data BudgetError : Type 0 where
  daily_exceeded session_exceeded : BudgetError

-- One day in milliseconds.
abbrev pub day_ms : ℕ
day_ms = 86_400_000

module _ (r : Redis) where
  open r use {counter, incr, expire}

  -- The session half of check_and_reserve.
  unfoldable pub check_session : Option String → ℕ → World r → Option BudgetError
  check_session none estimated w = none
  check_session (some s) estimated w =
      if ltb default_session_cap (counter w.now (budget_session s) w.store + estimated)
      then some session_exceeded
      else none

  -- check_and_reserve: the error that it raises, if any.
  unfoldable pub check_and_reserve :
      String → Option String → String → ℕ → World r → Option BudgetError
  unfolding check_session truthy
  check_and_reserve user session today estimated w =
      if ltb default_daily_cap (counter w.now (budget_daily user today) w.store + estimated)
      then some daily_exceeded
      else check_session (truthy session) estimated w

  -- INCRBYFLOAT and EXPIRE on one key.
  unfoldable pub add_spend : RedisKey → ℕ → World r → World r
  add_spend k amount w = record w { store = expire w.now k day_ms (incr w.now k amount w.store) }

  unfoldable pub add_session_spend : Option String → ℕ → World r → World r
  unfolding add_spend
  add_session_spend none amount w = w
  add_session_spend (some s) amount w = add_spend (budget_session s) amount w

  -- commit_spend.
  unfoldable pub commit_spend : String → Option String → String → ℕ → World r → World r
  unfolding add_session_spend truthy add_spend
  commit_spend user session today amount w =
      add_session_spend (truthy session) amount (add_spend (budget_daily user today) amount w)
