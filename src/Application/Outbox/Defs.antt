-- ===== src/Application/Outbox/Defs.antt =====
-- `should_deliver_notification` and `enqueue_notification_event` of
-- backend/alert_hub/application/notifications.py.
use alert_hub.Prelude.{
  Bool, true, false, not, Option, none, some, List, ◌∷◌, Text, codes, ◌==◌, text_eq, find,
  if◌then◌else◌,
}
use alert_hub.Runtime.{Fields, has}
use alert_hub.Domain.Events.Defs.{EventType}
use alert_hub.Application.Rows.{IncidentEvent, OutboxItem}
use alert_hub.Application.Store.{Store}

abbrev pub notifiable : EventType → Fields → Bool
notifiable EventType.firing payload = true
notifiable EventType.resolved payload = not (has (codes "actor_user_id") payload)
notifiable _ payload = false

unfoldable pub should_deliver_notification : IncidentEvent → Bool
should_deliver_notification e = notifiable e.event_type e.payload

-- An item found by its id, or else by the event in its payload.
unfoldable pub find_item : Text → List OutboxItem → Option OutboxItem
find_item event_id items = elim (find (λ (o : OutboxItem). event_id == o.id) items) [
  | some o ↦ some o
  | none ↦ find (λ (o : OutboxItem). event_id == o.event_id) items
]

-- What a call leaves: the row that it passed to `db.add`, if any, and the item that it returns.
pub record Enqueued : Type 0 where
  pub added : Option OutboxItem
  pub item : Option OutboxItem

abbrev work_item : IncidentEvent → OutboxItem
work_item e = record {
  id = e.id;
  event_id = e.id;
  incident_id = e.incident_id;
  available_at = e.received_at;
  attempt = 0;
  locked_at = none;
  completed_at = none;
  last_error = none;
}

-- The sessions do not flush by themselves, so that the lookups see the rows of the store, which are
-- flushed, and no row that was only added.
unfoldable pub enqueue_notification_event : IncidentEvent → Store → Enqueued
enqueue_notification_event e s =
    if should_deliver_notification e
    then elim (find_item e.id s.outbox) [
      | some o ↦ record { added = none; item = some o }
      | none ↦ record { added = some (work_item e); item = some (work_item e) }
    ]
    else record { added = none; item = none }

-- `db.flush()`, for an added work item
abbrev pub flush_outbox : Option OutboxItem → Store → Store
flush_outbox none s = s
flush_outbox (some o) s = record s { outbox = o ∷ s.outbox }

-- The call and the flush that follows it before the next call: the one of the caller, of
-- `append_cluster_event` for the next event of a batch, or of the commit.
unfoldable pub enqueue_and_flush : IncidentEvent → Store → Store
enqueue_and_flush e s = flush_outbox (enqueue_notification_event e s).added s
