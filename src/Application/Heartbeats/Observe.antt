-- ===== src/Application/Heartbeats/Observe.antt =====
-- backend/alert_hub/application/heartbeats.py. The column `updated_at` of the heartbeat state is left out.
use alert_hub.Prelude.{
  ℕ, Bool, true, false, not, ◌||◌, Option, none, some, is_some, List, [], ◌∷◌, ◌++◌, Text, codes,
  ◌==◌, text_eq, nat_eq, ltb, leb, find, or_else, Result, ok, raise, ◌>>=◌, if◌then◌else◌,
}
use alert_hub.Runtime.{
  Value, Fields, Runtime, get, has, truthy, py_str, str_or_empty, or_value, set_default,
}
use alert_hub.Runtime.Value.{text, object}
use alert_hub.Runtime.Fields.{end, field}
use alert_hub.Domain.Events.Defs.{EventType, is_resolved}
use alert_hub.Domain.Time.{as_utc}
use alert_hub.Domain.Severity.{normalize_severity}
use alert_hub.Domain.Normalized.{EventStatus, NormalizedEvent, event_key, incident_fingerprint}
use alert_hub.Application.Rows.{HeartbeatState, Incident, IncidentEvent, Source}
use alert_hub.Application.Store.{Context, Store, append_cluster_event, find_incident}
use alert_hub.Application.Incidents.Ingest.{Intake, ingest_normalized_events, no_intake}

abbrev pub heartbeat_missed : Text
heartbeat_missed = codes "heartbeat-missed"

abbrev pub heartbeat_kind : Text
heartbeat_kind = codes "heartbeat"

-- A source's own labels, with its name and its region where they are not set.
abbrev pub with_source_labels : Source → Fields → Fields
with_source_labels source labels =
    set_default (codes "region") (text (or_else source.region (codes "unknown")))
      (set_default (codes "source") (text source.name) labels)

abbrev pub configured_labels : Value → Fields
configured_labels (object fs) = fs
configured_labels _ = end

unfoldable pub heartbeat_labels : Source → Fields
heartbeat_labels source =
    with_source_labels source (configured_labels (get (codes "labels") source.config))

-- `config.get("severity", "critical")`
abbrev pub configured_severity : Fields → Value
configured_severity config =
    if has (codes "severity") config then get (codes "severity") config else text (codes "critical")

abbrev pub heartbeat_annotations : Fields
heartbeat_annotations = field (codes "source_kind") (text heartbeat_kind) end

unfoldable pub restored_event : Context → Source → Incident → ℕ → NormalizedEvent
unfolding heartbeat_labels
restored_event c source i observed_at = record {
  dedup_key = heartbeat_missed;
  status = EventStatus.resolved;
  title = py_str c.rt (
      or_value (get (codes "resolved_title") source.config)
        (text (codes "Heartbeat restored: " ++ source.name)));
  description = codes "Heartbeat from " ++ (source.name ++ codes " resumed");
  severity = normalize_severity c.rt (configured_severity source.config);
  starts_at = i.starts_at;
  ends_at = some observed_at;
  labels = heartbeat_labels source;
  annotations = heartbeat_annotations;
  source_url = none;
  external_event_id =
      some (codes "heartbeat-observation:" ++ (c.rt.iso_format observed_at ++ codes ":resolved"));
  raw_payload = end;
}

unfoldable pub heartbeat_incident : Runtime → Text → Store → Option Incident
heartbeat_incident rt source_id s =
    find_incident source_id (incident_fingerprint rt source_id heartbeat_missed) s

abbrev pub is_state_of : Text → HeartbeatState → Bool
is_state_of source_id h = source_id == h.source_id

abbrev pub get_state : Text → Store → Option HeartbeatState
get_state source_id s = find (is_state_of source_id) s.heartbeats

abbrev pub new_state : Source → HeartbeatState
new_state source = record {
  source_id = source.id;
  last_received_at = source.created_at;
  missed = false;
  last_event_key = none;
}

abbrev pub state_or_new : Source → Store → Option HeartbeatState → Store × HeartbeatState
state_or_new source s (some h) = (s, h)
state_or_new source s none =
    let h = new_state source in (record s { heartbeats = h ∷ s.heartbeats }, h)

-- The state of a source, which is new where there is none.
unfoldable pub ensure_state : Source → Store → Store × HeartbeatState
ensure_state source s = state_or_new source s (get_state source.id s)

unfoldable pub put_state : HeartbeatState → List HeartbeatState → List HeartbeatState
put_state h [] = []
put_state h (g ∷ gs) = if is_state_of h.source_id g then h ∷ gs else g ∷ put_state h gs

abbrev pub save_state : HeartbeatState → Store → Store
save_state h s = record s { heartbeats = put_state h s.heartbeats }

-- An incident that is open and no newer than the observation is resolved by it.
abbrev pub resolvable : ℕ → Incident → Bool
resolvable observed_at i = not (is_resolved i.status || ltb observed_at i.last_event_at)

abbrev pub is_open : Incident → Bool
is_open i = not (is_resolved i.status)

unfoldable pub resolve_incident :
    Context
    → Source
    → HeartbeatState
    → ℕ
    → Store
    → Option Incident
    → Result (Store × (HeartbeatState × Intake))
unfolding put_state
resolve_incident c source h observed_at s none =
    let g = record h { missed = false } in ok (save_state g s, (g, no_intake))
resolve_incident c source h observed_at s (some i) =
    if resolvable observed_at i
    then (let restored = restored_event c source i observed_at in
        ingest_normalized_events c source (restored ∷ []) s >>= λ r.
        let g = record h {
          missed = false;
          last_event_key = some (event_key c.rt restored source.id);
        } in
        ok (save_state g r.0, (g, r.1)))
    else (let g = record h { missed = is_open i } in ok (save_state g s, (g, no_intake)))

unfoldable pub resolve_from_observation :
    Context → Source → HeartbeatState → ℕ → Store → Result (Store × (HeartbeatState × Intake))
unfolding heartbeat_incident
resolve_from_observation c source h observed_at s =
    resolve_incident c source h observed_at s (heartbeat_incident c.rt source.id s)

abbrev pub received : ℕ → HeartbeatState → HeartbeatState
received t h = record h {
  last_received_at = if ltb h.last_received_at t then t else h.last_received_at;
}

abbrev pub is_live_heartbeat : Source → Bool
is_live_heartbeat source =
    if source.kind == heartbeat_kind then not (is_some source.deleted_at) else false

-- `db.get(Source, source_id)`
abbrev pub get_source : Text → Store → Option Source
get_source source_id s = find (λ (x : Source). source_id == x.id) s.sources

-- An observation of a source that was found.
unfoldable pub observe_source : Context → Source → ℕ → Store → Result (Store × Intake)
observe_source c source observed_at s =
    let ensured = ensure_state source s in
    let h = received observed_at ensured.1 in
    resolve_from_observation c source h observed_at (save_state h ensured.0) >>= λ r.
    ok (r.0, r.1.1)

unfoldable pub project_heartbeat_observation : Context → Text → ℕ → Store → Result (Store × Intake)
project_heartbeat_observation c source_id observed_at s = elim (get_source source_id s) [
  | none ↦ ok (s, no_intake)
  | some source ↦
      if is_live_heartbeat source then observe_source c source observed_at s else ok (s, no_intake)
]

unfoldable pub record_heartbeat_observation : Context → Source → ℕ → Store → Result (Store × Intake)
record_heartbeat_observation c source observed_at s =
    let appended =
      append_cluster_event c (codes "heartbeat_observation") source.id (codes "observed")
        (field (codes "source_id") (text source.id)
          (field (codes "received_at") (text (c.rt.iso_format observed_at)) end))
        observed_at none s in
    project_heartbeat_observation c source.id observed_at appended.0

-- The time of a resolution: `ends_at` where it can be parsed, else the event's own.
abbrev pub resolution_time : Context → IncidentEvent → ℕ
resolution_time c e =
    let raw = get (codes "ends_at") e.payload in
    if truthy raw
    then elim (as_utc c.rt c.now (text (py_str c.rt raw)) none) [
      | ok t ↦ t
      | raise _ ↦ e.occurred_at
    ]
    else e.occurred_at

-- The branches on the type of the event.
unfoldable pub reconcile_state :
    Context → IncidentEvent → Source → HeartbeatState → Store → EventType → Result Store
unfolding put_state
reconcile_state c e source h s EventType.resolved = ok (
    save_state
      (record (received (resolution_time c e) h) {
        missed = false;
        last_event_key = some e.event_key;
      })
      s)
reconcile_state c e source h s EventType.firing =
    if leb e.occurred_at h.last_received_at
    then (resolve_from_observation c source h h.last_received_at s >>= λ r. ok r.0)
    else ok (save_state (record h { missed = true; last_event_key = some e.event_key }) s)
reconcile_state c e source h s _ = ok s

unfoldable pub reconcile_source : Context → IncidentEvent → Option Source → Store → Result Store
unfolding ensure_state
reconcile_source c e none s = ok s
reconcile_source c e (some source) s =
    if source.kind == heartbeat_kind
    then (let ensured = ensure_state source s in
        reconcile_state c e source ensured.1 ensured.0 e.event_type)
    else ok s

unfoldable pub reconcile_heartbeat_incident :
    Context → IncidentEvent → Incident → Store → Result Store
reconcile_heartbeat_incident c e i s =
    if str_or_empty c.rt (get (codes "dedup_key") e.payload) == heartbeat_missed
    then reconcile_source c e (get_source i.source_id s) s
    else ok s
