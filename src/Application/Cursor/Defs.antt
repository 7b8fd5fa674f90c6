-- ===== src/Application/Cursor/Defs.antt =====
-- `peer_cursor` and `advance_peer_cursor`. The cursors of one peer are a dict from the origin to the
-- sequence number, each key one row of `sync_cursors`.
use alert_hub.Prelude.{
  ℕ, ◌-◌, Bool, ◌&&◌, List, [], ◌∷◌, Text, text_eq, nat_eq, ◌==◌, keep, length, leb, ltb, or_else,
  if◌then◌else◌,
}
use alert_hub.Prelude.Dict.{Dict, lookup, insert}
use alert_hub.Application.Rows.{ClusterEvent}
use alert_hub.Application.Store.{of_origin}

-- `row.origin_seq if row is not None else 0`
abbrev pub cursor_of : Text → Dict Text ℕ → ℕ
cursor_of origin cursor = or_else (lookup origin cursor) 0

-- The events of the origin after `current`, up to `candidate`.
abbrev pub is_between : Text → ℕ → ℕ → ClusterEvent → Bool
is_between origin current candidate e =
    of_origin origin e && (ltb current e.origin_seq && leb e.origin_seq candidate)

abbrev pub present : Text → ℕ → ℕ → List ClusterEvent → ℕ
present origin current candidate events = length (keep (is_between origin current candidate) events)

-- One round of the loop.
unfoldable pub advance_one : List ClusterEvent → Text → ℕ → Dict Text ℕ → Dict Text ℕ
unfolding lookup insert
advance_one events origin candidate cursor =
    let current = cursor_of origin cursor in
    if leb candidate current
    then cursor
    else if present origin current candidate events == candidate - current
    then insert origin candidate cursor
    else cursor

unfoldable pub advance_peer_cursor : List ClusterEvent → Dict Text ℕ → Dict Text ℕ → Dict Text ℕ
unfolding advance_one
advance_peer_cursor events [] cursor = cursor
advance_peer_cursor events ((origin, candidate) ∷ candidates) cursor =
    advance_peer_cursor events candidates (advance_one events origin candidate cursor)
