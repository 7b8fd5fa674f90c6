-- ===== src/Application/Sync/History.antt =====
-- The history of an entity: `_event_order`, `_latest_entity_event`, `_payload_datetime`,
-- `_decode_blob`, and the loop over the events of a session or of a service token.
use alert_hub.Prelude.{
  ℕ, Bool, true, false, ◌&&◌, Option, none, some, List, [], ◌∷◌, Text, text_eq, ◌==◌, codes, take,
  keep, or_else, ltb, Result, ok, raise, type_error, ◌>>=◌, if◌then◌else◌,
}
use alert_hub.Prelude.Order.{lt}
use alert_hub.Prelude.Sort.{sort_by}
use alert_hub.Runtime.{Value, Fields, Runtime, get, truthy, py_str, str_or, update}
use alert_hub.Runtime.Value.{null, text, array, object}
use alert_hub.Runtime.Fields.{end, field}
use alert_hub.Domain.Time.{as_utc}
use alert_hub.Domain.Events.Defs.{key_order}
use alert_hub.Application.Rows.{ClusterEvent}
use alert_hub.Application.Store.{Store}

abbrev pub event_order : ClusterEvent → ℕ × Text
event_order e = (e.occurred_at, e.event_id)

abbrev pub of_entity : Text → Text → ClusterEvent → Bool
of_entity entity_type entity_id e = e.entity_type == entity_type && e.entity_id == entity_id

-- The events of an entity, as they are stored.
abbrev pub entity_events : Text → Text → Store → List ClusterEvent
entity_events entity_type entity_id s = keep (of_entity entity_type entity_id) s.cluster_events

-- The first of the greatest, as `max` has it.
abbrev pub later_of : ClusterEvent → Option ClusterEvent → ClusterEvent
later_of e none = e
later_of e (some m) = if lt key_order (event_order e) (event_order m) then m else e

-- `max(events, key=_event_order, default=None)`
unfoldable pub latest : List ClusterEvent → Option ClusterEvent
latest [] = none
latest (e ∷ es) = some (later_of e (latest es))

unfoldable pub latest_entity_event : Text → Text → Store → Option ClusterEvent
unfolding latest
latest_entity_event entity_type entity_id s = latest (entity_events entity_type entity_id s)

abbrev pub time_of : Option ℕ → Result ℕ → Option ℕ
time_of default (ok t) = some t
time_of default (raise e) = default

-- The time that a text tells, or the default. The current time is not read.
abbrev pub time_or : Runtime → Option ℕ → Text → Option ℕ
time_or rt default s = time_of default (as_utc rt 0 (text s) none)

-- A list or a dictionary cannot be looked up in the set `{None, ""}`.
abbrev pub datetime_or : Runtime → Option ℕ → Value → Result (Option ℕ)
datetime_or rt default null = ok default
datetime_or rt default (text []) = ok default
datetime_or rt default (array vs) = raise type_error
datetime_or rt default (object fs) = raise type_error
datetime_or rt default v = ok (time_or rt default (py_str rt v))

unfoldable pub payload_datetime : Runtime → Text → Option ℕ → Fields → Result (Option ℕ)
unfolding as_utc py_str
payload_datetime rt name default payload = datetime_or rt default (get name payload)

-- `_payload_datetime(payload, name, default=event.occurred_at) or event.occurred_at`
abbrev pub payload_time : Runtime → Text → ClusterEvent → Result ℕ
payload_time rt name e =
    payload_datetime rt name (some e.occurred_at) e.payload >>= λ t. ok (or_else t e.occurred_at)

abbrev pub blob_of : Runtime → Value → Option (List ℕ)
blob_of rt (text s) = rt.b64decode s
blob_of rt _ = none

unfoldable pub decode_blob : Runtime → Text → Fields → Option (List ℕ)
unfolding get
decode_blob rt name payload = blob_of rt (get name payload)

-- `str(payload.get(name) or default)[:n]`
abbrev pub text_field : Runtime → ℕ → Text → Text → Fields → Text
text_field rt n name default payload = take n (str_or rt (get name payload) default)

-- `str(payload[name])[:n] if payload.get(name) else None`
abbrev pub optional_field : Runtime → ℕ → Text → Fields → Option Text
optional_field rt n name payload =
    if truthy (get name payload) then some (take n (py_str rt (get name payload))) else none

abbrev pub tombstone : Text
tombstone = codes "tombstone"

abbrev pub is_tombstone : ClusterEvent → Bool
is_tombstone e = e.operation == tombstone

-- What the events of a session, or of a token, say together.
pub record Merged : Type 0 where
  pub state : Fields
  pub revoked_at : Option ℕ

unfoldable pub without : Text → Fields → Fields
without k end = end
without k (field j v fs) = let rest = without k fs in if k == j then rest else field j v rest

-- The earlier of a candidate and of what was found.
abbrev pub earlier : Option ℕ → Option ℕ → Option ℕ
earlier none current = current
earlier (some t) none = some t
earlier (some t) (some u) = if ltb t u then some t else some u

abbrev pub or_revocation : Bool → ClusterEvent → Option ℕ → Option ℕ
or_revocation revokes e (some t) = some t
or_revocation true e none = some e.occurred_at
or_revocation false e none = none

-- The time at which an event revokes; the test is for the operations that do.
unfoldable pub revocation : Runtime → (ClusterEvent → Bool) → ClusterEvent → Result (Option ℕ)
unfolding payload_datetime
revocation rt revokes e = payload_datetime rt (codes "revoked_at") none e.payload >>= λ t.
    ok (or_revocation (revokes e) e t)

unfoldable pub merge : Runtime → (ClusterEvent → Bool) → List ClusterEvent → Merged → Result Merged
unfolding without update
merge rt revokes [] m = ok m
merge rt revokes (e ∷ es) m = revocation rt revokes e >>= λ t. merge rt revokes es (record {
  state = update m.state (without (codes "revoked_at") e.payload);
  revoked_at = earlier t m.revoked_at;
})

-- The events of an entity in their order.
unfoldable pub history : Text → Text → Store → List ClusterEvent
unfolding sort_by
history entity_type entity_id s =
    sort_by key_order event_order (entity_events entity_type entity_id s)

abbrev pub nothing_merged : Merged
nothing_merged = record { state = end; revoked_at = none }
