-- ===== src/Domain/Events.antt =====
-- The incident timeline of backend/alert_hub/domain/events.py: timeline events and the projection
-- of a timeline on the state of its incident.
pub mod Defs
pub mod Order
pub mod Shape
pub mod Repeats
