-- ===== src/Application/Sync.antt =====
-- Replication: backend/alert_hub/application/sync.py.
pub mod History
pub mod Nodes
pub mod Replay
pub mod Channels
pub mod Routes
pub mod Config
pub mod Registration
pub mod Push
pub mod Bootstrap
pub mod Sessions
pub mod Tokens
pub mod Accounts
pub mod Incidents
pub mod Sources
pub mod Apply
pub mod Converge
pub mod Latest
pub mod Again
pub mod Removal
pub mod Conflicts
pub mod Canonical
mod Tests
