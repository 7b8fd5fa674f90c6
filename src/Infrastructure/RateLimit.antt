-- ===== src/Infrastructure/RateLimit.antt =====
-- The request limiter, backend/alert_hub/infrastructure/rate_limit.py.
pub mod Limiter
pub mod Room
pub mod Bounds
pub mod Quota
