-- ===== src/Application/ClusterHealth/Defs.antt =====
-- backend/alert_hub/application/cluster_health.py.
use alert_hub.Prelude.{
  ℕ, Bool, true, false, not, Option, none, some, [], ◌∷◌, ◌++◌, Text, codes, or_else, Result, ok,
  ◌>>=◌, if◌then◌else◌,
}
use alert_hub.Runtime.{text_or_null, Fields, Runtime, py_str}
use alert_hub.Runtime.Value.{null, boolean, number, text, array, object}
use alert_hub.Runtime.Values.{nil}
use alert_hub.Runtime.Fields.{end, field}
use alert_hub.Domain.Events.Defs.{is_resolved}
use alert_hub.Domain.Severity.{Severity}
use alert_hub.Domain.Normalized.{EventStatus, NormalizedEvent, incident_fingerprint}
use alert_hub.Application.Rows.{Node, Incident, Source}
use alert_hub.Application.Store.{Context, Store, append_cluster_event, find_incident}
use alert_hub.Application.Incidents.Ingest.{ingest_normalized_events}
use alert_hub.Application.Heartbeats.Observe.{get_source}

abbrev pub health_source_id : Runtime → Text
health_source_id rt = rt.uuid5 (codes "alert-hub:source:cluster-api-health")

abbrev pub health_config : Fields
health_config =
    field (codes "allowed_cidrs") (array nil) (field (codes "system_managed") (boolean true) end)

unfoldable pub health_source : Context → Source
health_source c = record {
  id = health_source_id c.rt;
  name = codes "Cluster API health";
  kind = codes "generic_json";
  enabled = false;
  region = none;
  config = health_config;
  token_hash = codes "0000000000000000000000000000000000000000000000000000000000000000";
  created_at = c.now;
  updated_at = c.now;
  deleted_at = none;
}

unfoldable pub source_payload : Runtime → Source → Fields
source_payload rt x = field (codes "name") (text x.name) (
    field (codes "kind") (text x.kind) (
      field (codes "enabled") (boolean x.enabled) (
        field (codes "region") (text_or_null x.region) (
          field (codes "config") (object x.config) (
            field (codes "token_hash") (text x.token_hash) (
              field (codes "created_at") (text (rt.iso_format x.created_at)) (
                field (codes "updated_at") (text (rt.iso_format x.updated_at))
                  (field (codes "deleted_at") null end))))))))

unfoldable pub ensure_cluster_api_health_source : Context → Store → Store × Source
unfolding source_payload
ensure_cluster_api_health_source c s = elim (get_source (health_source_id c.rt) s) [
  | some x ↦ (s, x)
  | none ↦
      let x = health_source c in
      let appended =
        append_cluster_event c (codes "source") x.id (codes "upsert") (source_payload c.rt x) c.now
          none (record s { sources = x ∷ s.sources }) in
      (appended.0, x)
]

unfoldable pub node_api_alert_dedup_key : Text → Text
node_api_alert_dedup_key node_id = codes "cluster-node-api-down:" ++ node_id

unfoldable pub node_api_incident : Runtime → Text → Store → Option Incident
node_api_incident rt node_id s =
    find_incident (health_source_id rt)
      (incident_fingerprint rt (health_source_id rt) (node_api_alert_dedup_key node_id)) s

unfoldable pub node_labels : Node → Fields
node_labels node = field (codes "alertname") (text (codes "AlertHubNodeApiDown")) (
    field (codes "component") (text (codes "alert-hub-api")) (
      field (codes "node_id") (text node.id) (
        field (codes "source_region") (text node.region) (
          field (codes "target") (text node.name)
            (field (codes "target_name") (text node.name) end)))))

abbrev pub alert_title : Node → Text
alert_title node = codes "API unavailable: " ++ node.name

abbrev pub external_id : Context → Text → Node → ℕ → Text
external_id c prefix node at =
    prefix ++ (node.id ++ (codes ":" ++ (c.node_id ++ (codes ":" ++ c.rt.iso_format at))))

unfoldable pub down_event : Context → Node → ℕ → ℕ → NormalizedEvent
unfolding node_labels node_api_alert_dedup_key py_str
down_event c node failure_count at = record {
  dedup_key = node_api_alert_dedup_key node.id;
  status = EventStatus.firing;
  title = alert_title node;
  description =
      codes "Node "
      ++ (node.name
          ++ (codes " ("
              ++ (node.region
                  ++ (codes ") failed "
                      ++ (py_str c.rt (number failure_count)
                          ++ codes " consecutive authenticated peer health checks.")))));
  severity = Severity.critical;
  starts_at = at;
  ends_at = none;
  labels = node_labels node;
  annotations =
      field (codes "observer_node_id") (text c.node_id)
        (field (codes "failure_count") (number failure_count) end);
  source_url = none;
  external_event_id = some (external_id c (codes "node-api-down:") node at);
  raw_payload = end;
}

unfoldable pub recovered_event : Context → Node → Incident → Text → ℕ → NormalizedEvent
unfolding node_labels node_api_alert_dedup_key
recovered_event c node i reason at = record {
  dedup_key = node_api_alert_dedup_key node.id;
  status = EventStatus.resolved;
  title = alert_title node;
  description = reason;
  severity = Severity.critical;
  starts_at = i.starts_at;
  ends_at = some at;
  labels = node_labels node;
  annotations =
      field (codes "observer_node_id") (text c.node_id)
        (field (codes "resolution_reason") (text reason) end);
  source_url = none;
  external_event_id = some (external_id c (codes "node-api-recovered:") node at);
  raw_payload = end;
}

-- `incident is not None and incident.status != "resolved"`
abbrev pub is_alerting : Option Incident → Bool
is_alerting none = false
is_alerting (some i) = not (is_resolved i.status)

unfoldable pub record_node_api_down : Context → Node → ℕ → Option ℕ → Store → Result (Store × Bool)
record_node_api_down c node failure_count observed_at s =
    if node.api_down_alert_enabled
    then (if is_alerting (node_api_incident c.rt node.id s)
        then ok (s, false)
        else (let ensured = ensure_cluster_api_health_source c s in
            let e = down_event c node failure_count (or_else observed_at c.now) in
            ingest_normalized_events c ensured.1 (e ∷ []) ensured.0 >>= λ r. ok (r.0, true)))
    else ok (s, false)

abbrev pub open_only : Option Incident → Option Incident
open_only none = none
open_only (some i) = if is_resolved i.status then none else some i

-- The open incident and the system's source, where both are there.
unfoldable pub resolve_found_alert :
    Context → Node → Text → ℕ → Option Incident → Option Source → Store → Result (Store × Bool)
resolve_found_alert c node reason at (some i) (some x) s =
    ingest_normalized_events c x (recovered_event c node i reason at ∷ []) s >>= λ r. ok (r.0, true)
resolve_found_alert c node reason at _ _ s = ok (s, false)

unfoldable pub resolve_node_api_alert :
    Context → Node → Text → Option ℕ → Store → Result (Store × Bool)
resolve_node_api_alert c node reason observed_at s =
    resolve_found_alert c node reason (or_else observed_at c.now)
      (open_only (node_api_incident c.rt node.id s)) (get_source (health_source_id c.rt) s) s

abbrev pub same_bool : Bool → Bool → Bool
same_bool true b = b
same_bool false b = not b

-- The node's own column is returned beside the store.
unfoldable pub set_node_api_down_alert :
    Context → Node → Bool → Store → Result (Store × (Node × Bool))
set_node_api_down_alert c node enabled s =
    if same_bool node.api_down_alert_enabled enabled
    then ok (s, (node, false))
    else (let changed = record node { api_down_alert_enabled = enabled } in
        let appended =
          append_cluster_event c (codes "node_api_alert_setting") node.id (codes "upsert")
            (field (codes "enabled") (boolean enabled) end) c.now none s in
        if enabled
        then ok (appended.0, (changed, true))
        else resolve_node_api_alert c changed
            (codes "API-down monitoring was disabled by an operator.") none appended.0
          >>= λ r. ok (r.0, (changed, true)))
