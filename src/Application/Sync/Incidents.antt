-- ===== src/Application/Sync/Incidents.antt =====
-- Incidents: `_incident_anchor`, `_merge_incident`, `_canonical_incident` and
-- `_project_incident_event`.
use alert_hub.Prelude.{
  ℕ, Bool, not, ◌&&◌, ◌||◌, Option, none, some, is_some, List, [], ◌∷◌, Text, text_eq, ◌==◌, codes,
  take, keep, map, any, nonempty, or_else, Result, ok, integrity_error, ◌>>=◌, ◌>>◌, raise_if,
  if◌then◌else◌, find,
}
use alert_hub.Prelude.Table.{remove}
use alert_hub.Runtime.{Runtime, get, str_or_empty, py_str, truthy, dict_or_empty}
use alert_hub.Domain.Events.Defs.{EventType, IncidentStatus}
use alert_hub.Application.Rows.{ClusterEvent, Delivery, Incident, IncidentEvent}
use alert_hub.Application.Store.{Context, Store, find_event, find_incident, get_incident}
use alert_hub.Application.Incidents.Ingest.{incident_projection_id}
use alert_hub.Application.Incidents.Reproject.{reproject_incident}
use alert_hub.Application.Heartbeats.Observe.{get_source, reconcile_heartbeat_incident}
use alert_hub.Application.Notifications.Deliveries.{get_event}
use alert_hub.Application.Outbox.Defs.{enqueue_and_flush}
use alert_hub.Application.Sync.History.{history, payload_time, text_field, payload_datetime}
use alert_hub.Application.Sync.Replay.{replay_delivery_receipts}

abbrev pub source_id_of : Runtime → ClusterEvent → Text
source_id_of rt e = str_or_empty rt (get (codes "source_id") e.payload)

abbrev pub fingerprint_of : Runtime → ClusterEvent → Text
fingerprint_of rt e = str_or_empty rt (get (codes "fingerprint") e.payload)

abbrev pub is_anchored : Runtime → ClusterEvent → Bool
is_anchored rt e = nonempty (source_id_of rt e) && nonempty (fingerprint_of rt e)

abbrev pub pair_of : Runtime → Option ClusterEvent → Option (Text × Text)
pair_of rt none = none
pair_of rt (some e) = some (source_id_of rt e, fingerprint_of rt e)

-- The source and the fingerprint of the event, or of the first event of its incident that has both.
unfoldable pub incident_anchor : Runtime → ClusterEvent → Store → Option (Text × Text)
unfolding str_or_empty history
incident_anchor rt e s =
    if is_anchored rt e
    then pair_of rt (some e)
    else pair_of rt (find (is_anchored rt) (history (codes "incident") e.entity_id s))

-- The deliveries of an event go with it.
abbrev pub delete_event : Text → Store → Store
delete_event i s = record s {
  incident_events = remove (λ (e : IncidentEvent). e.id) i s.incident_events;
  deliveries = keep (λ (d : Delivery). not (d.event_id == i)) s.deliveries;
}

abbrev pub moved : Text → Text → IncidentEvent → IncidentEvent
moved i incident_id e = if e.id == i then record e { incident_id = incident_id } else e

abbrev pub move_event : Text → Text → Store → Store
move_event i incident_id s = record s {
  incident_events = map (moved i incident_id) s.incident_events;
}

-- Another event has the key.
abbrev pub has_twin : IncidentEvent → Store → Bool
has_twin row s =
    any (λ (e : IncidentEvent). e.event_key == row.event_key && not (e.id == row.id))
      s.incident_events

unfoldable pub merge_rows : Text → List IncidentEvent → Store → Store
unfolding remove
merge_rows incident_id [] s = s
merge_rows incident_id (row ∷ rows) s =
    merge_rows incident_id rows
      (if has_twin row s then delete_event row.id s else move_event row.id incident_id s)

abbrev pub delete_incident : Text → Store → Store
delete_incident i s = record s { incidents = remove (λ (j : Incident). j.id) i s.incidents }

unfoldable pub merge_incident : Text → Text → Store → Store
unfolding merge_rows remove
merge_incident canonical_id duplicate_id s = delete_incident duplicate_id (
    merge_rows canonical_id
      (keep (λ (e : IncidentEvent). e.incident_id == duplicate_id) s.incident_events) s)

-- `UNIQUE (source_id, fingerprint)`
abbrev pub insert_incident : Incident → Store → Result Store
insert_incident i s =
    raise_if (is_some (find_incident i.source_id i.fingerprint s)) integrity_error
    >> ok (record s { incidents = i ∷ s.incidents })

unfoldable pub replicated_incident : Runtime → Text → Text → Text → ℕ → ClusterEvent → Incident
unfolding str_or_empty py_str
replicated_incident rt id source_id fingerprint starts_at e = record {
  id = id;
  source_id = source_id;
  fingerprint = fingerprint;
  title = text_field rt 1024 (codes "title") (codes "Replicated incident") e.payload;
  description = str_or_empty rt (get (codes "description") e.payload);
  severity = text_field rt 16 (codes "severity") (codes "unknown") e.payload;
  status = IncidentStatus.open_incident;
  labels = dict_or_empty (get (codes "labels") e.payload);
  annotations = dict_or_empty (get (codes "annotations") e.payload);
  starts_at = starts_at;
  last_event_at = e.occurred_at;
  resolved_at = none;
  acknowledged_at = none;
  acknowledged_by = none;
}

-- Another incident of the pair is merged into the canonical one.
abbrev pub merge_other : Incident → Option Incident → Store → Store
merge_other i none s = s
merge_other i (some j) s = if j.id == i.id then s else merge_incident i.id j.id s

-- The branches on whether the canonical incident is there, and on the incident of the pair.
unfoldable pub canonical_or_new :
    Runtime
    → Text
    → Text
    → Text
    → ℕ
    → ClusterEvent
    → Option Incident
    → Option Incident
    → Store
    → Result (Store × Incident)
unfolding merge_incident replicated_incident
canonical_or_new rt id source_id fingerprint starts_at e (some i) existing s =
    ok (merge_other i existing s, i)
canonical_or_new rt id source_id fingerprint starts_at e none (some j) s =
    let copy = record j { id = id; source_id = source_id; fingerprint = fingerprint } in
    insert_incident copy s >>= λ s'. ok (merge_incident id j.id s', copy)
canonical_or_new rt id source_id fingerprint starts_at e none none s =
    let i = replicated_incident rt id source_id fingerprint starts_at e in
    insert_incident i s >>= λ s'. ok (s', i)

unfoldable pub canonical_incident :
    Runtime → ClusterEvent → Text → Text → Store → Result (Option (Store × Incident))
unfolding canonical_or_new payload_datetime incident_projection_id
canonical_incident rt e source_id fingerprint s =
    if is_some (get_source source_id s)
    then (do
      let id = incident_projection_id rt source_id fingerprint
      starts_at ← payload_time rt (codes "starts_at") e
      r ←
          canonical_or_new rt id source_id fingerprint starts_at e (get_incident id s)
            (find_incident source_id fingerprint s) s
      ok (some r))
    else ok none

-- A type that the projection does not know keeps its name.
abbrev pub event_type_of : Text → EventType
event_type_of name =
    if name == codes "firing"
    then EventType.firing
    else if name == codes "resolved"
    then EventType.resolved
    else if name == codes "acknowledged"
    then EventType.acknowledged
    else if name == codes "unacknowledged"
    then EventType.unacknowledged
    else if name == codes "silenced"
    then EventType.silenced
    else if name == codes "unsilenced"
    then EventType.unsilenced
    else EventType.other name

abbrev pub event_key_of : Runtime → ClusterEvent → Text
event_key_of rt e =
    if truthy (get (codes "event_key") e.payload)
    then py_str rt (get (codes "event_key") e.payload)
    else e.event_id

unfoldable pub replicated_event : Context → ClusterEvent → Text → IncidentEvent
unfolding py_str truthy
replicated_event c e incident_id = record {
  id = e.event_id;
  origin_node_id = e.origin_node_id;
  origin_seq = e.origin_seq;
  event_key = take 128 (event_key_of c.rt e);
  incident_id = incident_id;
  event_type = event_type_of (take 32 e.operation);
  occurred_at = e.occurred_at;
  received_at = c.now;
  payload = e.payload;
}

-- The event of the timeline once it is there, and belongs to the incident.
unfoldable pub event_or_new :
    Context → ClusterEvent → Incident → Option IncidentEvent → Store → Store × IncidentEvent
unfolding replicated_event merge_incident
event_or_new c e i none s =
    let row = replicated_event c e i.id in
    (record s { incident_events = row ∷ s.incident_events }, row)
event_or_new c e i (some row) s =
    if row.incident_id == i.id || not (is_some (get_incident row.incident_id s))
    then (s, row)
    else (
      merge_incident i.id row.incident_id s,
      or_else (get_event row.id (merge_incident i.id row.incident_id s)) row,
    )

-- What follows once the incident is there.
unfoldable pub project_on :
    Context → ClusterEvent → Option (Store × Incident) → Store → Result Store
unfolding event_or_new replay_delivery_receipts truthy py_str
project_on c e none s = ok s
project_on c e (some (s1, i)) s = do
  let (s2, row) = event_or_new c e i (find_event (event_key_of c.rt e) s1) s1
  r ← reproject_incident c i s2
  s4 ← reconcile_heartbeat_incident c row r.1 r.0
  replay_delivery_receipts c
      (record {
        event_id = some row.id;
        event_key = some row.event_key;
        channel_id = none;
        subscription_id = none;
      })
      (enqueue_and_flush row s4)

abbrev pub project_anchored : Context → ClusterEvent → Option (Text × Text) → Store → Result Store
project_anchored c e none s = ok s
project_anchored c e (some (source_id, fingerprint)) s =
    canonical_incident c.rt e source_id fingerprint s >>= λ r. project_on c e r s

unfoldable pub project_incident_event : Context → ClusterEvent → Store → Result Store
unfolding incident_anchor canonical_incident project_on
project_incident_event c e s = project_anchored c e (incident_anchor c.rt e s) s
