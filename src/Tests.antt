-- ===== src/Tests.antt =====
-- Runs of the program on small inputs, and the instances of the theorems on them.
mod Session
mod Interview
mod Voice
mod Resilience
mod Routing
mod Accounts
mod Documents
mod Jobs
mod Reconnect
mod Retrieval
mod Safety
mod Services
mod Tables
mod Transport
