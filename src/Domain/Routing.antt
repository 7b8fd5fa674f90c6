-- ===== src/Domain/Routing.antt =====
-- Routing of notifications, backend/alert_hub/domain/routing.py: label matchers, route rules, the
-- selection of channels, and the nodes that may deliver.
pub mod Matcher
pub mod Rules
pub mod Selection
pub mod Nodes
pub mod Ownership
pub mod Owners
