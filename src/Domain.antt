-- ===== src/Domain.antt =====
-- The domain layer: backend/alert_hub/domain.
pub mod Time
pub mod Severity
pub mod Normalized
pub mod Events
pub mod Routing
pub mod Checks
pub mod Adapters
pub mod Monitoring
mod Tests
