-- ===== src/Domain/Adapters.antt =====
-- backend/alert_hub/domain/adapters.py.
pub mod Defs
pub mod Alerts
mod Tests
