-- ===== src/Application/Heartbeats.antt =====
-- Heartbeat sources.
pub mod Observe
pub mod Evaluate
pub mod Rounds
pub mod Settled
mod Tests
