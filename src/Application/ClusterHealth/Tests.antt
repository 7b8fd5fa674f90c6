-- ===== src/Application/ClusterHealth/Tests.antt =====
-- The theorem on recoveries, at a concrete input.
use alert_hub.Prelude.{◌≡◌, refl, Bool, true, false, none, [], ◌∷◌, text_eq, text_beq, codes, ok}
use alert_hub.Toy.{toy, or_default, is_ok, ok_of_default}
use alert_hub.Runtime.{get}
use alert_hub.Domain.Time.{as_utc}
use alert_hub.Domain.Events.Defs.{project_incident, apply_type, run}
use alert_hub.Domain.Normalized.{event_key, incident_fingerprint}
use alert_hub.Application.Rows.{Node}
use alert_hub.Application.Store.{Store, append_cluster_event}
use alert_hub.Application.Incidents.Ingest.{
  ingest_one, ingest_found, ingest_new, write_event, ensure_incident, opened_incident,
  cluster_payload, ingest_normalized_events,
}
use alert_hub.Application.Incidents.Reproject.{reproject_incident, timeline}
use alert_hub.Application.Incidents.Secondary.{incident_ids}
use alert_hub.Application.ClusterHealth.Defs.{
  resolve_found_alert, node_api_incident, node_api_alert_dedup_key, recovered_event, down_event,
  health_source, health_source_id, resolve_node_api_alert,
}
use alert_hub.Application.ClusterHealth.Recovery.{resolve_node_api_alert-ids}
use alert_hub.Application.TestData.{context, store}

abbrev node : Node
node = record {
  id = codes "m";
  name = codes "peer";
  region = codes "eu";
  public_api_url = none;
  private_peer_url = none;
  enabled_roles = [];
  created_at = 0;
  last_seen_at = none;
  software_version = codes "1";
  api_down_alert_enabled = true;
}

abbrev alerted : Store
alerted = record store {
  sources = health_source (context 5) ∷ [];
  incidents =
      opened_incident toy (health_source_id toy)
        (incident_fingerprint toy (health_source_id toy) (node_api_alert_dedup_key (codes "m")))
        (down_event (context 5) node 3 5)
      ∷ [];
}

abbrev recovered : Store × Bool
recovered =
    or_default (store, false) (resolve_node_api_alert (context 8) node (codes "back") none alerted)

recovers_is_ok : is_ok (resolve_node_api_alert (context 8) node (codes "back") none alerted) ≡ true
unfolding resolve_node_api_alert resolve_found_alert node_api_incident node_api_alert_dedup_key
    recovered_event health_source ingest_normalized_events ingest_one ingest_found ingest_new
    reproject_incident project_incident timeline write_event text_beq ensure_incident
    opened_incident incident_fingerprint append_cluster_event apply_type as_utc get cluster_payload
    run event_key
recovers_is_ok = refl

recovers : resolve_node_api_alert (context 8) node (codes "back") none alerted ≡ ok recovered
recovers =
    ok_of_default (store, false)
      (resolve_node_api_alert (context 8) node (codes "back") none alerted) recovers_is_ok

resolve_node_api_alert-ids_example : incident_ids recovered.0 ≡ incident_ids alerted
resolve_node_api_alert-ids_example =
    resolve_node_api_alert-ids (context 8) node (codes "back") none alerted recovers
