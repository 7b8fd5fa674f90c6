-- ===== src/Application.antt =====
-- The application layer: backend/alert_hub/application.
pub mod Rows
pub mod Store
pub mod Outbox
pub mod Incidents
pub mod Heartbeats
pub mod ClusterHealth
pub mod Cursor
pub mod Notifications
pub mod Sync
pub mod PushSessions
pub mod Sessions
mod TestData
mod Tests
