-- ===== src/Application/Outbox.antt =====
-- The work items of backend/alert_hub/application/notifications.py.
pub mod Defs
pub mod Once
