-- ===== src/Backend/Jobs.antt =====
-- worker_tasks.py: the wrapper `job` of every background job, with its retries and dead letters. A job
-- is a step on a state; its name and arguments, the spans and the logs are left out.
pub mod Retries
pub mod Resume
use praxis_interview_os.Base.{
  ℕ, ◌-◌, ◌*◌, ◌^◌, Bool, true, false, List, [], ◌∷◌, String, ltb, if◌then◌else◌,
}

-- What a job's body does: it returns, raises PermanentJobError, raises arq's Retry itself, or raises
-- another exception.
pub data Outcome (R : Type 0) : Type 0 where
  returned : R → Outcome R
  permanent raised : String → Outcome R
  retried : ℕ → Outcome R

-- What the wrapper does then: "status": "failed" is returned, Retry is raised with a delay in seconds,
-- or the exception goes on.
pub data Result (R : Type 0) : Type 0 where
  done : R → Result R
  failed : String → Result R
  retry : ℕ → Result R
  raises : String → Result R

-- The table failed_jobs, newest first, by its error messages; whether the worker has an engine, and
-- whether its inserts work.
pub record Letters : Type 0 where
  pub has_engine : Bool
  pub inserts : Bool
  pub letters : List String

-- record_dead_letter.
unfoldable pub record_dead_letter : String → Letters → Letters
record_dead_letter error l =
    if l.has_engine then (if l.inserts then record l { letters = error ∷ l.letters } else l) else l

module _ {R : Type 0} where
  -- wrapper, after its job's body.
  unfoldable pub settle : ℕ → ℕ → Outcome R → Letters → Letters × Result R
  unfolding record_dead_letter
  settle max_tries job_try (returned x) l = (l, done x)
  settle max_tries job_try (retried defer) l = (l, retry defer)
  settle max_tries job_try (permanent e) l = (record_dead_letter e l, failed e)
  settle max_tries job_try (raised e) l =
      if ltb job_try max_tries
      then (l, retry (5 * 2 ^ (job_try - 1)))
      else (record_dead_letter e l, raises e)

module _ {S R : Type 0} where
  -- wrapper: the body is told its try.
  unfoldable pub wrapper : (ℕ → S → S × Outcome R) → ℕ → ℕ → S × Letters → (S × Letters) × Result R
  unfolding settle
  wrapper fn max_tries job_try (s, l) =
      let (t, o) = fn job_try s in let (m, x) = settle max_tries job_try o l in ((t, m), x)
