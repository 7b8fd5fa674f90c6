-- ===== src/Application/Sync/Registration.antt =====
-- What the history of a push subscription says: its configuration and its removal.
use alert_hub.Prelude.{
  ℕ, Bool, ◌||◌, Option, none, some, is_none, List, [], ◌∷◌, Text, text_eq, ◌==◌, codes, keep,
  nonempty, ltb, Result, ok, ◌>>=◌, if◌then◌else◌,
}
use alert_hub.Prelude.Order.{lt}
use alert_hub.Prelude.Table.{row_of}
use alert_hub.Runtime.{Fields, Runtime, get, truthy}
use alert_hub.Domain.Events.Defs.{key_order}
use alert_hub.Application.Rows.{ClusterEvent, AuthSession, User}
use alert_hub.Application.Store.{Store}
use alert_hub.Application.Sync.History.{
  decode_blob, event_order, is_tombstone, latest, payload_datetime,
}
use alert_hub.Application.Sync.Nodes.{upsert}

abbrev pub user_of : Text → Store → Option User
user_of i s = row_of (λ (u : User). u.id) i s.users

abbrev pub session_of : Text → Store → Option AuthSession
session_of i s = row_of (λ (a : AuthSession). a.id) i s.sessions

abbrev pub is_state_event : ClusterEvent → Bool
is_state_event e = e.operation == upsert || is_tombstone e

abbrev pub is_bound : ClusterEvent → Bool
is_bound e = truthy (get (codes "session_id") e.payload)

-- Once a subscription is bound to a session, an unbound event counts only where it removes it.
unfoldable pub effective : List ClusterEvent → List ClusterEvent
effective state_events =
    if nonempty (keep is_bound state_events)
    then keep (λ e. is_tombstone e || is_bound e) state_events
    else state_events

-- The latest of the bound events, or of all where none is bound.
unfoldable pub configuration : List ClusterEvent → Option ClusterEvent
unfolding latest
configuration state_events =
    if nonempty (keep is_bound state_events)
    then latest (keep is_bound state_events)
    else latest state_events

-- The keys of an endpoint, where all can be decoded.
pub record Endpoint : Type 0 where
  pub endpoint : List ℕ
  pub p256dh : List ℕ
  pub auth : List ℕ

abbrev pub endpoint_of : Option (List ℕ) → Option (List ℕ) → Option (List ℕ) → Option Endpoint
endpoint_of (some e) (some p) (some a) = some (record { endpoint = e; p256dh = p; auth = a })
endpoint_of _ _ _ = none

unfoldable pub decoded : Runtime → Fields → Option Endpoint
unfolding decode_blob
decoded rt payload =
    endpoint_of (decode_blob rt (codes "endpoint") payload)
      (decode_blob rt (codes "p256dh") payload) (decode_blob rt (codes "auth") payload)

abbrev pub later_time : Option ℕ → Option ℕ → Option ℕ
later_time none current = current
later_time (some t) none = some t
later_time (some t) (some u) = if ltb u t then some t else some u

-- The loop over the whole history for the last success.
unfoldable pub last_success : Runtime → List ClusterEvent → Option ℕ → Result (Option ℕ)
unfolding payload_datetime
last_success rt [] current = ok current
last_success rt (e ∷ es) current =
    payload_datetime rt (codes "last_success_at") none e.payload >>= λ t.
    last_success rt es (later_time t current)

abbrev pub removes : ClusterEvent → Bool
removes e = is_tombstone e || truthy (get (codes "disabled_at") e.payload)

-- The first of the least, as `min` has it.
abbrev pub earlier_of : ClusterEvent → Option ClusterEvent → ClusterEvent
earlier_of e none = e
earlier_of e (some m) = if lt key_order (event_order m) (event_order e) then m else e

unfoldable pub earliest : List ClusterEvent → Option ClusterEvent
earliest [] = none
earliest (e ∷ es) = some (earlier_of e (earliest es))

abbrev pub removal_time : Runtime → Option ClusterEvent → Result (Option ℕ)
removal_time rt none = ok none
removal_time rt (some e) = payload_datetime rt (codes "disabled_at") (some e.occurred_at) e.payload

abbrev pub revocation_of : Option AuthSession → Option ℕ
revocation_of none = none
revocation_of (some a) = a.revoked_at

abbrev pub or_time : Option ℕ → Option ℕ → Option ℕ
or_time (some t) other = some t
or_time none other = other

-- The time from which the subscription is disabled.
unfoldable pub disabled_time :
    Runtime
    → List ClusterEvent
    → ClusterEvent
    → Option Text
    → Option AuthSession
    → Result (Option ℕ)
unfolding effective earliest payload_datetime
disabled_time rt state_events configuration_event session_id linked =
    removal_time rt (earliest (keep removes (effective state_events))) >>= λ t. ok (
      or_time
        (or_time t (if is_none session_id then some configuration_event.occurred_at else none))
        (revocation_of linked))
