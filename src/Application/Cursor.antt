-- ===== src/Application/Cursor.antt =====
-- `advance_peer_cursor` of backend/alert_hub/application/sync.py, on the cursors of one peer.
pub mod Defs
pub mod Contiguous
