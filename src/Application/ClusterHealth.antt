-- ===== src/Application/ClusterHealth.antt =====
-- backend/alert_hub/application/cluster_health.py.
pub mod Defs
pub mod Recovery
mod Tests
