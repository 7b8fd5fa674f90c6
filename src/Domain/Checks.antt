-- ===== src/Domain/Checks.antt =====
-- Aggregation of check results, backend/alert_hub/domain/checks.py: from normalized results to a
-- view of each, to the status of each part, to the status of the check.
pub mod Types
pub mod Views
pub mod Parts
pub mod Aggregate
pub mod PartLaws
pub mod Verdicts
pub mod Sources
pub mod CheckLaws
mod Tests
