-- ===== src/Application/Tests.antt =====
-- The theorems of the application layer at concrete inputs.
use alert_hub.Prelude.{
  ℕ, ◌≡◌, ◌≤◌, refl, true, none, some, List, [], ◌∷◌, text_eq, text_beq, codes, ok,
}
use alert_hub.Prelude.Dict.{lookup}
use alert_hub.Toy.{toy, or_default, is_ok, ok_of_default}
use alert_hub.Runtime.{get}
use alert_hub.Domain.Time.{as_utc}
use alert_hub.Runtime.Fields.{end}
use alert_hub.Domain.Events.Defs.{EventType, project_incident, apply_type, run}
use alert_hub.Domain.Normalized.{EventStatus, NormalizedEvent, event_key, incident_fingerprint}
use alert_hub.Application.Rows.{ClusterEvent, IncidentEvent}
use alert_hub.Application.Store.{Store, append_cluster_event}
use alert_hub.Application.Outbox.Defs.{should_deliver_notification, enqueue_and_flush}
use alert_hub.Application.Outbox.Once.{items_for, enqueue_notification_event-once}
use alert_hub.Application.Incidents.Ingest.{
  ingest_one, ingest_found, ingest_new, write_event, ensure_incident, opened_incident,
  cluster_payload, resolve_one, resolve_found, resolve_new, Intake, no_intake,
  ingest_normalized_events, ingest_existing_resolutions,
}
use alert_hub.Application.Incidents.Reproject.{reproject_incident, timeline}
use alert_hub.Application.Incidents.Redelivery.{ingest_normalized_events_again}
use alert_hub.Application.Incidents.Sequence.{is_gapless, ingest_normalized_events-is_gapless}
use alert_hub.Application.Incidents.Secondary.{incident_ids, ingest_existing_resolutions-ids}
use alert_hub.Application.Cursor.Defs.{cursor_of, advance_peer_cursor}
use alert_hub.Application.Cursor.Contiguous.{
  is_unique, has_upto, advance_peer_cursor-has_upto, advance_peer_cursor-le,
}
use alert_hub.Application.TestData.{context, source, event, batch, store}

abbrev taken : Store × Intake
taken = or_default (store, no_intake) (ingest_normalized_events (context 5) source batch store)

taken_in_is_ok : is_ok (ingest_normalized_events (context 5) source batch store) ≡ true
unfolding ingest_normalized_events ingest_one ingest_found ingest_new reproject_incident
    project_incident timeline write_event text_beq ensure_incident opened_incident
    incident_fingerprint append_cluster_event apply_type as_utc get cluster_payload run event_key
taken_in_is_ok = refl

taken_in : ingest_normalized_events (context 5) source batch store ≡ ok taken
taken_in =
    ok_of_default (store, no_intake) (ingest_normalized_events (context 5) source batch store)
      taken_in_is_ok

ingest_normalized_events_again_example :
    (p : Intake) × (ingest_normalized_events (context 9) source batch taken.0 ≡ ok (taken.0, p))
    × (p.duplicates ≡ 1)
ingest_normalized_events_again_example =
    ingest_normalized_events_again (context 5) (context 9) source batch store refl taken_in

starts_gapless : is_gapless (codes "n") [] ≡ true
unfolding is_gapless
starts_gapless = refl

ingest_normalized_events-is_gapless_example : is_gapless (codes "n") taken.0.cluster_events ≡ true
ingest_normalized_events-is_gapless_example =
    ingest_normalized_events-is_gapless (context 5) source batch store (codes "n") taken_in
      starts_gapless

abbrev numbered : ℕ → ClusterEvent
numbered n = record {
  event_id = n ∷ [];
  origin_node_id = codes "n";
  origin_seq = n;
  entity_type = codes "incident";
  entity_id = codes "i";
  operation = codes "firing";
  occurred_at = n;
  payload = end;
}

abbrev history : List ClusterEvent
history = numbered 2 ∷ numbered 1 ∷ []

history_unique : is_unique (codes "n") history ≡ true
unfolding is_unique text_beq
history_unique = refl

starts_covered : has_upto (codes "n") (cursor_of (codes "n") []) history ≡ true
unfolding has_upto lookup
starts_covered = refl

advance_peer_cursor-has_upto_example :
    has_upto
      (codes "n")
      (cursor_of (codes "n") (advance_peer_cursor history ((codes "n", 2) ∷ []) []))
      history
    ≡ true
advance_peer_cursor-has_upto_example =
    advance_peer_cursor-has_upto history ((codes "n", 2) ∷ []) [] (codes "n") history_unique
      starts_covered

advance_peer_cursor-le_example :
    1
    ≤ cursor_of
        (codes "n")
        (advance_peer_cursor history ((codes "n", 2) ∷ []) ((codes "n", 1) ∷ []))
unfolding lookup text_beq
advance_peer_cursor-le_example =
    advance_peer_cursor-le history ((codes "n", 2) ∷ []) ((codes "n", 1) ∷ []) (codes "n")

abbrev resolution : List NormalizedEvent
resolution = event EventStatus.resolved (some 6) ∷ []

-- An incident that the first stream opened.
abbrev opened : Store
opened = record store {
  incidents =
      opened_incident toy (codes "s") (incident_fingerprint toy (codes "s") (codes "d"))
        (event EventStatus.firing none)
      ∷ [];
}

abbrev secondary : Store × (Intake × ℕ)
secondary =
    or_default (store, (no_intake, 0))
      (ingest_existing_resolutions (context 7) source resolution opened)

secondary_in_is_ok : is_ok (ingest_existing_resolutions (context 7) source resolution opened) ≡ true
unfolding ingest_existing_resolutions resolve_one resolve_found resolve_new ingest_normalized_events
    ingest_one ingest_found ingest_new reproject_incident project_incident timeline write_event
    text_beq ensure_incident opened_incident incident_fingerprint append_cluster_event apply_type
    as_utc get cluster_payload run event_key
secondary_in_is_ok = refl

secondary_in : ingest_existing_resolutions (context 7) source resolution opened ≡ ok secondary
secondary_in =
    ok_of_default (store, (no_intake, 0))
      (ingest_existing_resolutions (context 7) source resolution opened) secondary_in_is_ok

ingest_existing_resolutions-ids_example : incident_ids secondary.0 ≡ incident_ids opened
ingest_existing_resolutions-ids_example =
    ingest_existing_resolutions-ids (context 7) source resolution opened secondary_in

abbrev row : IncidentEvent
row = record {
  id = codes "e";
  origin_node_id = codes "n";
  origin_seq = 1;
  event_key = codes "k";
  incident_id = codes "i";
  event_type = EventType.firing;
  occurred_at = 3;
  received_at = 5;
  payload = end;
}

-- A store with a work item for the event under an id of its own.
abbrev queued : Store
queued = record store {
  outbox =
      record {
        id = codes "o";
        event_id = codes "e";
        incident_id = codes "i";
        available_at = 5;
        attempt = 0;
        locked_at = none;
        completed_at = none;
        last_error = none;
      }
      ∷ [];
}

enqueue_notification_event-once_example :
    items_for (codes "e") (enqueue_and_flush row queued).outbox ≡ 1
unfolding should_deliver_notification text_beq
enqueue_notification_event-once_example = enqueue_notification_event-once row queued (codes "e")
