-- ===== src/Backend/Idempotency.antt =====
-- services/worker_idempotency.py: jobs that must not take effect twice. The table
-- worker_idempotency_log is a list of rows with different keys; every statement succeeds.
pub mod Once
use praxis_interview_os.Base.{
  Bool, true, false, List, [], ◌∷◌, Option, none, some, String, str_eq, if◌then◌else◌,
}

pub data Status : Type 0 where
  started completed failed : Status

pub record Row : Type 0 where
  pub idempotency_key : String
  pub job_type : String
  pub status : Status

-- _check_idempotency.
unfoldable pub check_idempotency : String → List Row → Option Status
check_idempotency key [] = none
check_idempotency key (r ∷ rs) =
    if str_eq r.idempotency_key key then some r.status else check_idempotency key rs

-- _mark_started: ON CONFLICT DO NOTHING.
unfoldable pub mark_started : String → String → List Row → List Row
mark_started key job_type [] =
    record { idempotency_key = key; job_type = job_type; status = started } ∷ []
mark_started key job_type (r ∷ rs) =
    if str_eq r.idempotency_key key then r ∷ rs else r ∷ mark_started key job_type rs

-- The UPDATE of _mark_completed and _mark_failed.
unfoldable pub mark : String → Status → List Row → List Row
mark key s [] = []
mark key s (r ∷ rs) =
    if str_eq r.idempotency_key key
    then record r { status = s } ∷ mark key s rs
    else r ∷ mark key s rs

-- How the work under the context manager ends: it returns, it raises, or the worker dies.
pub data Outcome : Type 0 where
  returns raises crashes : Outcome

-- What is written after the work.
unfoldable pub conclude : String → Outcome → List Row → List Row
unfolding mark
conclude key returns log = mark key completed log
conclude key raises log = mark key failed log
conclude key crashes log = log

-- idempotent_job around work with the given outcome; the Boolean is what the context manager yields,
-- which tells whether the work is done.
unfoldable pub idempotent_job : String → String → Outcome → List Row → List Row × Bool
unfolding check_idempotency mark_started conclude
idempotent_job key job_type o log = elim (check_idempotency key log) [
  | some completed ↦ (log, false)
  | _ ↦ (conclude key o (mark_started key job_type log), true)
]
