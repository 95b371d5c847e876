-- ===== src/Gateway/World.antt =====
-- What the gateway reads and writes: the clock, the Redis store and the telemetry tables.
use praxis_interview_os.Base.{ℕ, suc, ◌+◌, Bool, List, ◌∷◌, Option, String, if◌then◌else◌}
use praxis_interview_os.Redis.{Redis}

-- A row of provider_health.
pub record HealthRow : Type 0 where
  pub provider : String
  pub capability : String
  pub state : String

-- A row of usage_events; the cost is in billionths of a dollar.
pub record UsageRow : Type 0 where
  pub user : String
  pub session : Option String
  pub provider : String
  pub model : String
  pub cost : ℕ
  pub free : Bool
  pub fell_back_from : Option String

module _ (r : Redis) where
  open r use {Store}

  -- `db_up n` says whether the n-th telemetry write succeeds; without a database none does.
  pub record World : Type 0 where
    pub now : ℕ
    pub store : Store
    pub health : List HealthRow
    pub usage : List UsageRow
    pub db_up : ℕ → Bool
    pub writes : ℕ

  -- Time passes.
  abbrev pub wait : ℕ → World → World
  wait n w = record w { now = w.now + n }

  -- persistence.safe_write: a failed write is rolled back and reported, never raised.
  unfoldable pub write_health : HealthRow → World → World
  write_health row w = record w {
    health = if w.db_up w.writes then row ∷ w.health else w.health;
    writes = suc w.writes;
  }

  unfoldable pub write_usage : UsageRow → World → World
  write_usage row w = record w {
    usage = if w.db_up w.writes then row ∷ w.usage else w.usage;
    writes = suc w.writes;
  }
