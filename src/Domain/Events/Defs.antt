-- ===== src/Domain/Events/Defs.antt =====
-- `ProjectionEvent`, `IncidentProjection` and `project_incident`.
use alert_hub.Prelude.{
  ℕ, Bool, true, false, ◌||◌, Option, none, some, List, [], ◌∷◌, Text, codes, Result, ok, ◌>>=◌,
  ltb, leb, is_some, if◌then◌else◌,
}
use alert_hub.Prelude.Order.{Order, nat_order, text_order, pair_order}
use alert_hub.Prelude.Sort.{sort_by}
use alert_hub.Runtime.{DateTime, Value, Fields, Runtime, get, is_null}
use alert_hub.Domain.Time.{as_utc, to_utc}

pub data EventType : Type 0 where
  firing resolved acknowledged unacknowledged silenced unsilenced : EventType
  other : Text → EventType

pub data IncidentStatus : Type 0 where
  open_incident acknowledged resolved silenced : IncidentStatus

abbrev pub event_type_name : EventType → Text
event_type_name firing = codes "firing"
event_type_name EventType.resolved = codes "resolved"
event_type_name EventType.acknowledged = codes "acknowledged"
event_type_name unacknowledged = codes "unacknowledged"
event_type_name EventType.silenced = codes "silenced"
event_type_name unsilenced = codes "unsilenced"
event_type_name (other name) = name

abbrev pub is_resolved : IncidentStatus → Bool
is_resolved IncidentStatus.resolved = true
is_resolved _ = false

abbrev pub is_acked : IncidentStatus → Bool
is_acked IncidentStatus.acknowledged = true
is_acked _ = false

abbrev pub is_silent : IncidentStatus → Bool
is_silent IncidentStatus.silenced = true
is_silent _ = false

pub record ProjectionEvent : Type 0 where
  pub event_id : Text
  pub event_type : EventType
  pub occurred_at : DateTime
  pub payload : Fields

pub record IncidentProjection : Type 0 where
  pub status : IncidentStatus
  pub starts_at : Option ℕ
  pub resolved_at : Option ℕ
  pub acknowledged_at : Option ℕ
  pub silenced_at : Option ℕ

abbrev pub initial : IncidentProjection
initial = record {
  status = IncidentStatus.open_incident;
  starts_at = none;
  resolved_at = none;
  acknowledged_at = none;
  silenced_at = none;
}

-- `starts_at is None or candidate > starts_at`
abbrev pub is_newer : ℕ → Option ℕ → Bool
is_newer candidate none = true
is_newer candidate (some t) = ltb t candidate

-- The `firing` branch.
abbrev pub fire : IncidentProjection → ℕ → IncidentProjection
fire s candidate =
    if is_newer candidate s.starts_at || is_resolved s.status
    then record s {
      status = IncidentStatus.open_incident;
      starts_at = some candidate;
      resolved_at = none;
      acknowledged_at = none;
      silenced_at = none;
    }
    else s

-- `occurrence is None or starts_at is None or as_utc(occurrence) >= starts_at`; the parse is not
-- reached where an earlier operand holds.
abbrev pub covers : Runtime → ℕ → Value → Option ℕ → Result Bool
covers rt now occurrence none = ok true
covers rt now occurrence (some t) =
    if is_null occurrence
    then ok true
    else (as_utc rt now occurrence none >>= λ begun. ok (leb t begun))

abbrev pub resolve : IncidentProjection → ℕ → Bool → IncidentProjection
resolve s t stale_free =
    if stale_free then record s { status = IncidentStatus.resolved; resolved_at = some t } else s

-- One round of the loop; `t` is `as_utc(event.occurred_at)`.
unfoldable pub apply_type :
    Runtime → ℕ → IncidentProjection → EventType → ℕ → Fields → Result IncidentProjection
apply_type rt now s EventType.firing t payload =
    as_utc rt now (get (codes "starts_at") payload) (some t) >>= λ candidate. ok (fire s candidate)
apply_type rt now s EventType.resolved t payload =
    covers rt now (get (codes "starts_at") payload) s.starts_at >>= λ current.
    ok (resolve s t current)
apply_type rt now s EventType.acknowledged t payload = ok (
    if is_resolved s.status
    then s
    else record s { status = IncidentStatus.acknowledged; acknowledged_at = some t })
apply_type rt now s EventType.unacknowledged t payload = ok (
    if is_acked s.status
    then record s { status = IncidentStatus.open_incident; acknowledged_at = none }
    else s)
apply_type rt now s EventType.silenced t payload = ok (
    if is_resolved s.status
    then s
    else record s { status = IncidentStatus.silenced; silenced_at = some t })
apply_type rt now s EventType.unsilenced t payload = ok (
    if is_silent s.status
    then record s {
      status =
          if is_some s.acknowledged_at
          then IncidentStatus.acknowledged
          else IncidentStatus.open_incident;
      silenced_at = none;
    }
    else s)
apply_type rt now s (EventType.other kind) t payload = ok s

abbrev pub step : Runtime → ℕ → IncidentProjection → ProjectionEvent → Result IncidentProjection
step rt now s e = apply_type rt now s e.event_type (to_utc e.occurred_at) e.payload

-- The `for` loop.
unfoldable pub run :
    Runtime → ℕ → IncidentProjection → List ProjectionEvent → Result IncidentProjection
run rt now s [] = ok s
run rt now s (e ∷ es) = step rt now s e >>= λ s'. run rt now s' es

-- `(as_utc(event.occurred_at), event.event_id)`
abbrev pub event_key : ProjectionEvent → ℕ × Text
event_key e = (to_utc e.occurred_at, e.event_id)

abbrev pub key_order : Order (ℕ × Text)
key_order = pair_order nat_order text_order

unfoldable pub project_incident : Runtime → ℕ → List ProjectionEvent → Result IncidentProjection
unfolding run sort_by
project_incident rt now events = run rt now initial (sort_by key_order event_key events)
