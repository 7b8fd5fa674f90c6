-- ===== src/Application/Incidents.antt =====
-- Intake of events into incidents, backend/alert_hub/application/incidents.py.
pub mod Reproject
pub mod Ingest
pub mod Effects
pub mod Redelivery
pub mod Sequence
pub mod Secondary
pub mod UserEvents
