-- ===== src/Application/Incidents/UserEvents.antt =====
-- `append_user_event`.
use alert_hub.Prelude.{◌+◌, max, none, ◌∷◌, ◌++◌, Text, codes, Result, ok, ◌>>=◌}
use alert_hub.Runtime.{Fields, update}
use alert_hub.Runtime.Value.{text}
use alert_hub.Runtime.Fields.{end, field}
use alert_hub.Domain.Events.Defs.{EventType, event_type_name}
use alert_hub.Application.Rows.{Incident, IncidentEvent}
use alert_hub.Application.Store.{Context, Store, append_cluster_event}
use alert_hub.Application.Outbox.Defs.{enqueue_and_flush}
use alert_hub.Application.Incidents.Reproject.{reproject_incident}
use alert_hub.Application.Incidents.Ingest.{timeline_event}

-- The digest has an id of its own, which is minted before the cluster event's.
unfoldable pub user_event_digest : Context → Incident → EventType → Store → Text
user_event_digest c i t s = c.rt.sha256 (
    c.node_id
    ++ 0 ∷ (i.id ++ 0 ∷ (event_type_name t ++ 0 ∷ (c.rt.iso_format c.now ++ 0 ∷ c.mint s.minted))))

unfoldable pub append_user_event :
    Context
    → Incident
    → EventType
    → Text
    → Fields
    → Store
    → Result (Store × (Incident × IncidentEvent))
unfolding user_event_digest
append_user_event c i event_type user_id payload s =
    let details = update (field (codes "actor_user_id") (text user_id) end) payload in
    let digest = user_event_digest c i event_type s in
    let appended =
      append_cluster_event c (codes "incident") i.id (event_type_name event_type)
        (update (field (codes "event_key") (text digest) end) details) c.now none
        (record s { minted = s.minted + 1 }) in
    let row = timeline_event appended.1 digest i.id event_type c.now details c.now in
    let enqueued =
      enqueue_and_flush row
        (record (appended.0) { incident_events = row ∷ appended.0.incident_events }) in
    reproject_incident c (record i { last_event_at = max i.last_event_at c.now }) enqueued >>= λ r.
    ok (r.0, (r.1, row))
