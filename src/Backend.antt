-- ===== src/Backend.antt =====
-- The backend's services (backend/app): schedules, difficulty, breakers, jobs and rate limits.
pub mod Sm2
pub mod Difficulty
pub mod Circuit
pub mod Idempotency
pub mod RateLimiter
pub mod Pagination
pub mod Owned
pub mod Jobs
pub mod Auth
pub mod Principal
pub mod CandidateMemory
pub mod Uploads
