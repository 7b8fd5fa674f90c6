-- ===== src/Application/Incidents/Effects.antt =====
-- What each step of the intake writes, and what it leaves alone.
use alert_hub.Prelude.{
  ◌≡◌, ◌∙◌, refl, sym, ap, List, [], ◌∷◌, map, Text, text_eq, ok, >>=-eq-ok, ok_injective, arith,
}
use mathlib.Core.Path.{subst}
use alert_hub.Runtime.{Runtime}
use alert_hub.Domain.Events.Defs.{IncidentProjection, project_incident}
use alert_hub.Domain.Normalized.{NormalizedEvent, incident_fingerprint}
use alert_hub.Application.Rows.{ClusterEvent, Incident, IncidentEvent, OutboxItem, Source}
use alert_hub.Application.Store.{
  user_ids, Context, Store, append_cluster_event, next_origin_seq, put_incident,
}
use alert_hub.Application.Outbox.Defs.{enqueue_and_flush}
use alert_hub.Application.Incidents.Reproject.{
  timeline, projection_event, refresh_metadata, apply_projection, reproject_incident,
}
use alert_hub.Application.Incidents.Ingest.{ensure_incident, ingest_new, write_event}

refresh_metadata-id :
    (rt : Runtime) (rows : List IncidentEvent) (i : Incident)
    → (refresh_metadata rt rows i).id ≡ i.id
unfolding refresh_metadata
refresh_metadata-id rt rows i = ground arith

apply_projection-id :
    (rt : Runtime) (users : List Text) (rows : List IncidentEvent) (p : IncidentProjection)
    (i : Incident)
    → (apply_projection rt users rows p i).id ≡ i.id
unfolding apply_projection
apply_projection-id rt users rows p i = refresh_metadata-id rt rows _

-- A new projection changes one row of the incidents, and not its id.
pub reproject_incident_effect :
    (c : Context) (i : Incident) (s : Store) {r : Store × Incident}
    → reproject_incident c i s ≡ ok r
    → (r.0 ≡ record s { incidents = put_incident r.1 s.incidents }) × (r.1.id ≡ i.id)
unfolding reproject_incident
reproject_incident_effect c i s {r} h =
    let (p, projected, done) =
      >>=-eq-ok (project_incident c.rt c.now (map projection_event (timeline i.id s)))
        (λ q.
          let j = apply_projection c.rt (user_ids s) (timeline i.id s) q i in
          ok (record s { incidents = put_incident j s.incidents }, j))
        h in
    let j = apply_projection c.rt (user_ids s) (timeline i.id s) p i in
    subst
      (λ (q : Store × Incident).
        (q.0 ≡ record s { incidents = put_incident q.1 s.incidents }) × (q.1.id ≡ i.id))
      (ok_injective (record s { incidents = put_incident j s.incidents }, j) r done)
      (refl, apply_projection-id c.rt (user_ids s) (timeline i.id s) p i)

pub put_incident-ids :
    (i : Incident) (is : List Incident) → map (λ j. j.id) (put_incident i is) ≡ map (λ j. j.id) is
unfolding put_incident
put_incident-ids i [] = refl
put_incident-ids i (j ∷ js) = ground (arith, text_eq.beq_iff i.id j.id, put_incident-ids i js)

-- The work item goes to the outbox and nowhere else.
pub enqueue_effect :
    (e : IncidentEvent) (s : Store)
    → enqueue_and_flush e s ≡ record s { outbox = (enqueue_and_flush e s).outbox }
unfolding enqueue_and_flush
enqueue_effect e s = ground arith

pub ensure_incident_effect :
    (rt : Runtime) (source_id fingerprint : Text) (e : NormalizedEvent) (s : Store)
    → (ensure_incident rt source_id fingerprint e s).0
      ≡ record s { incidents = (ensure_incident rt source_id fingerprint e s).0.incidents }
unfolding ensure_incident
ensure_incident_effect rt source_id fingerprint e s = ground arith

-- The rows that one accepted event adds: a cluster event with the next sequence number of the node,
-- and a timeline event with the key. The heartbeat states and the sources stay.
pub record Adds (c : Context) (key : Text) (s s' : Store) : Type 0 where
  pub row : IncidentEvent
  pub event : ClusterEvent
  pub rows : s'.incident_events ≡ row ∷ s.incident_events
  pub row_key : row.event_key ≡ key
  pub events : s'.cluster_events ≡ event ∷ s.cluster_events
  pub origin : event.origin_node_id ≡ c.node_id
  pub seq : event.origin_seq ≡ next_origin_seq c.node_id s
  pub kept_heartbeats : s'.heartbeats ≡ s.heartbeats
  pub kept_sources : s'.sources ≡ s.sources

write_event-Adds :
    (c : Context) (source : Source) (e : NormalizedEvent) (key : Text) (s : Store)
    → Adds c key s (write_event c source e key s).store
unfolding write_event append_cluster_event next_origin_seq
write_event-Adds c source e key s =
    let fingerprint = incident_fingerprint c.rt source.id e.dedup_key in
    let kept = ensure_incident_effect c.rt source.id fingerprint e s in
    let w = write_event c source e key s in
    record {
      row = w.row;
      event = w.event;
      rows = ap (λ (q : Store). w.row ∷ q.incident_events) kept;
      row_key = refl;
      events = ap (λ (q : Store). w.event ∷ q.cluster_events) kept;
      origin = refl;
      seq = ap (next_origin_seq c.node_id) kept;
      kept_heartbeats = ap (λ (q : Store). q.heartbeats) kept;
      kept_sources = ap (λ (q : Store). q.sources) kept;
    }

-- Changes of the incidents and of the outbox alone keep what was added.
Adds-after :
    {c : Context} {key : Text} {s : Store} (t : Store) (is : List Incident) (os : List OutboxItem)
    → Adds c key s t
    → Adds c key s (record t { incidents = is; outbox = os })
Adds-after t is os a = record {
  row = a.row;
  event = a.event;
  rows = a.rows;
  row_key = a.row_key;
  events = a.events;
  origin = a.origin;
  seq = a.seq;
  kept_heartbeats = a.kept_heartbeats;
  kept_sources = a.kept_sources;
}

-- The store that an accepted event leaves, from the one that was written first.
pub ingest_new_effect :
    (c : Context) (source : Source) (e : NormalizedEvent) (key : Text) (s : Store)
    {r : Store × Incident}
    → ingest_new c source e key s ≡ ok r
    → let w = write_event c source e key s in
      (r.0
        ≡ record (w.store) { incidents = put_incident r.1 w.store.incidents; outbox = r.0.outbox })
      × (r.1.id ≡ w.incident.id)
unfolding ingest_new
ingest_new_effect c source e key s {r} h =
    let w = write_event c source e key s in
    let (q, projected, done) =
      >>=-eq-ok (reproject_incident c w.incident w.store)
        (λ q. ok ((enqueue_and_flush w.row q.0), q.1)) h in
    let (wrote, named) = reproject_incident_effect c w.incident w.store projected in
    subst
      (λ (x : Store × Incident).
        (x.0 ≡ record (w.store) {
          incidents = put_incident x.1 w.store.incidents;
          outbox = x.0.outbox;
        })
        × (x.1.id ≡ w.incident.id))
      (ok_injective ((enqueue_and_flush w.row q.0), q.1) r done)
      (
        enqueue_effect w.row q.0
            ∙ ap (λ (x : Store). record x { outbox = (enqueue_and_flush w.row q.0).outbox }) wrote,
        named,
      )

pub ingest_new-Adds :
    (c : Context) (source : Source) (e : NormalizedEvent) (key : Text) (s : Store)
    {r : Store × Incident}
    → ingest_new c source e key s ≡ ok r
    → Adds c key s r.0
ingest_new-Adds c source e key s {r} h =
    let w = write_event c source e key s in
    let (wrote, named) = ingest_new_effect c source e key s h in
    subst (Adds c key s) (sym wrote) (
      Adds-after w.store (put_incident r.1 w.store.incidents) r.0.outbox
        (write_event-Adds c source e key s))
