-- ===== src/Infrastructure.antt =====
-- The infrastructure layer: backend/alert_hub/infrastructure.
pub mod RateLimit
pub mod Cidrs
mod Tests
