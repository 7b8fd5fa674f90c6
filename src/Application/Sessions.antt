-- ===== src/Application/Sessions.antt =====
-- Sessions and service tokens: backend/alert_hub/application/auth.py.
pub mod Defs
pub mod Rotation
mod Tests
