-- ===== src/Application/Notifications.antt =====
-- Deliveries: backend/alert_hub/application/notifications.py and workers/notifications.py.
pub mod Messages
pub mod Deliveries
pub mod Timeline
pub mod Receipts
pub mod Routes
pub mod Queue
pub mod Ledger
pub mod Outcome
pub mod Prepare
pub mod Provider
pub mod Dispatch
pub mod Worker
pub mod Backlog
pub mod Receive
pub mod Claims
pub mod Retries
pub mod RoundTrip
mod Tests
