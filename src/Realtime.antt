-- ===== src/Realtime.antt =====
-- The realtime agent: the process that runs a live interview.
pub mod Session
pub mod Generation
pub mod Coaching
pub mod Policy
pub mod TurnDetection
pub mod Vad
pub mod Lock
pub mod Orchestrator
pub mod Claims
pub mod Frames
pub mod Transport
pub mod Reconnect
