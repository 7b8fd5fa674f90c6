-- ===== src/Application/Incidents/Ingest.antt =====
-- `ingest_normalized_events` and `ingest_existing_resolutions`.
use alert_hub.Prelude.{
  ℕ, ◌+◌, max, Bool, true, false, not, Option, none, some, List, [], ◌∷◌, ◌++◌, Text, codes, take,
  or_else, Result, ok, ◌>>=◌, if◌then◌else◌,
}
use alert_hub.Prelude.Texts.{replace_offset}
use alert_hub.Runtime.{text_or_null, Value, Fields, Runtime}
use alert_hub.Runtime.Value.{null, text, object}
use alert_hub.Runtime.Fields.{end, field}
use alert_hub.Domain.Events.Defs.{EventType, IncidentStatus, is_resolved}
use alert_hub.Domain.Normalized.{
  NormalizedEvent, event_key, incident_fingerprint, status_name, type_of_status, is_resolution,
}
use alert_hub.Domain.Severity.{severity_name}
use alert_hub.Application.Rows.{ClusterEvent, Incident, IncidentEvent, Source}
use alert_hub.Application.Store.{
  Context, Store, get_incident, find_incident, find_event, append_cluster_event,
}
use alert_hub.Application.Outbox.Defs.{enqueue_and_flush}
use alert_hub.Application.Incidents.Reproject.{reproject_incident}

-- `_json_datetime`
unfoldable pub json_datetime : Runtime → ℕ → Text
unfolding replace_offset
json_datetime rt t = replace_offset (rt.iso_format t)

abbrev pub json_datetime_or_null : Runtime → Option ℕ → Value
json_datetime_or_null rt none = null
json_datetime_or_null rt (some t) = text (json_datetime rt t)

unfoldable pub incident_projection_id : Runtime → Text → Text → Text
incident_projection_id rt source_id fingerprint =
    rt.uuid5 (codes "alert-hub:incident:" ++ (source_id ++ (codes ":" ++ fingerprint)))

-- `event.ends_at if event.status == "resolved" and event.ends_at else event.starts_at`
abbrev pub occurrence_time : NormalizedEvent → ℕ
occurrence_time e = if is_resolution e.status then or_else e.ends_at e.starts_at else e.starts_at

unfoldable pub cluster_payload : Runtime → Text → Text → Text → NormalizedEvent → Fields
unfolding json_datetime
cluster_payload rt key fingerprint source_id e = field (codes "event_key") (text key) (
    field (codes "fingerprint") (text fingerprint) (
      field (codes "source_id") (text source_id) (
        field (codes "dedup_key") (text e.dedup_key) (
          field (codes "status") (text (status_name e.status)) (
            field (codes "title") (text e.title) (
              field (codes "description") (text e.description) (
                field (codes "severity") (text (severity_name e.severity)) (
                  field (codes "starts_at") (text (json_datetime rt e.starts_at)) (
                    field (codes "ends_at") (json_datetime_or_null rt e.ends_at) (
                      field (codes "labels") (object e.labels) (
                        field (codes "annotations") (object e.annotations) (
                          field (codes "source_url") (text_or_null e.source_url) (
                            field (codes "external_event_id") (text_or_null e.external_event_id)
                              end)))))))))))))

-- The incident that the event opens.
unfoldable pub opened_incident : Runtime → Text → Text → NormalizedEvent → Incident
unfolding incident_projection_id
opened_incident rt source_id fingerprint e = record {
  id = incident_projection_id rt source_id fingerprint;
  source_id = source_id;
  fingerprint = fingerprint;
  title = take 1024 e.title;
  description = e.description;
  severity = severity_name e.severity;
  status = IncidentStatus.open_incident;
  labels = e.labels;
  annotations = e.annotations;
  starts_at = e.starts_at;
  last_event_at = occurrence_time e;
  resolved_at = none;
  acknowledged_at = none;
  acknowledged_by = none;
}

-- The existing incident, or a new row.
unfoldable pub ensure_incident : Runtime → Text → Text → NormalizedEvent → Store → Store × Incident
ensure_incident rt source_id fingerprint e s = elim (find_incident source_id fingerprint s) [
  | some i ↦ (s, i)
  | none ↦
      let i = opened_incident rt source_id fingerprint e in
      (record s { incidents = i ∷ s.incidents }, i)
]

abbrev pub timeline_event : ClusterEvent → Text → Text → EventType → ℕ → Fields → ℕ → IncidentEvent
timeline_event ce key incident_id event_type occurred_at payload received_at = record {
  id = ce.event_id;
  origin_node_id = ce.origin_node_id;
  origin_seq = ce.origin_seq;
  event_key = key;
  incident_id = incident_id;
  event_type = event_type;
  occurred_at = occurred_at;
  received_at = received_at;
  payload = payload;
}

-- The columns that the event sets before the projection is computed again.
abbrev pub updated_incident : NormalizedEvent → Incident → Incident
updated_incident e i = record i {
  title = take 1024 e.title;
  description = e.description;
  severity = severity_name e.severity;
  labels = e.labels;
  annotations = e.annotations;
  last_event_at = max i.last_event_at (occurrence_time e);
}

-- What an event with a new key writes before the projection is computed again.
pub record Written : Type 0 where
  pub store : Store
  pub incident : Incident
  pub event : ClusterEvent
  pub row : IncidentEvent

unfoldable pub write_event : Context → Source → NormalizedEvent → Text → Store → Written
write_event c source e key s =
    let fingerprint = incident_fingerprint c.rt source.id e.dedup_key in
    let at = occurrence_time e in
    let ensured = ensure_incident c.rt source.id fingerprint e s in
    let i = ensured.1 in
    let payload = cluster_payload c.rt key fingerprint source.id e in
    let appended =
      append_cluster_event c (codes "incident") i.id (status_name e.status) payload at none
        ensured.0 in
    let row = timeline_event appended.1 key i.id (type_of_status e.status) at payload c.now in
    record {
      store = record (appended.0) { incident_events = row ∷ appended.0.incident_events };
      incident = updated_incident e i;
      event = appended.1;
      row = row;
    }

-- An event with a new key: its incident, its cluster event, its timeline event, the projection and
-- the work item.
unfoldable pub ingest_new :
    Context → Source → NormalizedEvent → Text → Store → Result (Store × Incident)
ingest_new c source e key s =
    let w = write_event c source e key s in
    reproject_incident c w.incident w.store >>= λ r. ok (enqueue_and_flush w.row r.0, r.1)

-- The outcome of a loop: the incidents touched, by id, and the number of duplicates.
pub record Intake : Type 0 where
  pub affected : List Text
  pub duplicates : ℕ

abbrev pub touched : Option Incident → List Text
touched none = []
touched (some i) = i.id ∷ []

abbrev pub join_intake : Intake → Intake → Intake
join_intake a b = record {
  affected = a.affected ++ b.affected;
  duplicates = a.duplicates + b.duplicates;
}

-- One round of the loop, by the row that the key is found at.
unfoldable pub ingest_found :
    Context
    → Source
    → NormalizedEvent
    → Text
    → Store
    → Option IncidentEvent
    → Result (Store × Intake)
ingest_found c source e key s (some row) =
    ok (s, record { affected = touched (get_incident row.incident_id s); duplicates = 1 })
ingest_found c source e key s none =
    ingest_new c source e key s >>= λ r. ok (r.0, record { affected = r.1.id ∷ []; duplicates = 0 })

unfoldable pub ingest_one : Context → Source → NormalizedEvent → Store → Result (Store × Intake)
ingest_one c source e s =
    let key = event_key c.rt e source.id in ingest_found c source e key s (find_event key s)

abbrev pub no_intake : Intake
no_intake = record { affected = []; duplicates = 0 }

unfoldable pub ingest_normalized_events :
    Context → Source → List NormalizedEvent → Store → Result (Store × Intake)
ingest_normalized_events c source [] s = ok (s, no_intake)
ingest_normalized_events c source (e ∷ es) s = ingest_one c source e s >>= λ r.
    ingest_normalized_events c source es r.0 >>= λ q. ok (q.0, join_intake r.1 q.1)

-- What is known of a resolution's incident decides whether the secondary stream may apply it.
abbrev pub accepts_resolution : Option Incident → Bool
accepts_resolution none = false
accepts_resolution (some i) = not (is_resolved i.status)

-- A resolution with a new key.
unfoldable pub resolve_new :
    Context → Source → NormalizedEvent → Store → Bool → Result (Store × (Intake × ℕ))
resolve_new c source e s true =
    ingest_normalized_events c source (e ∷ []) s >>= λ r. ok (r.0, (r.1, 0))
resolve_new c source e s false = ok (s, (no_intake, 1))

unfoldable pub resolve_found :
    Context
    → Source
    → NormalizedEvent
    → Store
    → Option IncidentEvent
    → Result (Store × (Intake × ℕ))
resolve_found c source e s (some row) =
    ok (s, (record { affected = touched (get_incident row.incident_id s); duplicates = 1 }, 0))
resolve_found c source e s none = resolve_new c source e s (
    accepts_resolution
      (find_incident source.id (incident_fingerprint c.rt source.id e.dedup_key) s))

-- One round of `ingest_existing_resolutions`; the last part is the number ignored.
unfoldable pub resolve_one :
    Context → Source → NormalizedEvent → Store → Result (Store × (Intake × ℕ))
resolve_one c source e s =
    if is_resolution e.status
    then resolve_found c source e s (find_event (event_key c.rt e source.id) s)
    else ok (s, (no_intake, 1))

unfoldable pub ingest_existing_resolutions :
    Context → Source → List NormalizedEvent → Store → Result (Store × (Intake × ℕ))
ingest_existing_resolutions c source [] s = ok (s, (no_intake, 0))
ingest_existing_resolutions c source (e ∷ es) s = resolve_one c source e s >>= λ r.
    ingest_existing_resolutions c source es r.0 >>= λ q.
    ok (q.0, (join_intake r.1.0 q.1.0, r.1.1 + q.1.1))
