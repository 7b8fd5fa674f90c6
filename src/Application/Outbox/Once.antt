-- ===== src/Application/Outbox/Once.antt =====
-- An event has one work item.
use alert_hub.Prelude.{
  ℕ, ◌≤◌, ◌≡◌, refl, Bool, true, ◌&&◌, ◌||◌, none, List, [], ◌∷◌, Text, text_eq, ◌==◌, max, length,
  keep, is_some, if◌then◌else◌, arith,
}
use alert_hub.Application.Rows.{IncidentEvent, OutboxItem}
use alert_hub.Application.Store.{Store}
use alert_hub.Application.Outbox.Defs.{
  should_deliver_notification, enqueue_notification_event, enqueue_and_flush, find_item,
}

-- Whether an item is for the event, by its own id or by the event that it carries.
abbrev pub is_for : Text → OutboxItem → Bool
is_for event_id o = (event_id == o.id) || (event_id == o.event_id)

abbrev pub items_for : Text → List OutboxItem → ℕ
items_for event_id items = length (keep (is_for event_id) items)

find_item-none :
    (i : Text) (items : List OutboxItem) → find_item i items ≡ none → items_for i items ≡ 0
unfolding find_item
find_item-none i [] h = refl
find_item-none i (o ∷ items) h = ground (arith, h, find_item-none i items)

find_item-some :
    (i : Text) (items : List OutboxItem)
    → is_some (find_item i items) ≡ true
    → 1 ≤ items_for i items
unfolding find_item
find_item-some i [] h = cc
find_item-some i (o ∷ items) h = ground (arith, h, find_item-some i items)

-- Of the work items for an event, which name it by their id or in their payload, enqueueing and
-- flushing that event leaves at least one, if it is one to notify of, and adds one only where there
-- was none; the items for any other event stay as many.
pub enqueue_notification_event-once :
    (e : IncidentEvent) (s : Store) (event_id : Text)
    → items_for event_id (enqueue_and_flush e s).outbox ≡ (
        if should_deliver_notification e && (event_id == e.id)
        then max 1 (items_for event_id s.outbox)
        else items_for event_id s.outbox)
unfolding enqueue_and_flush enqueue_notification_event
enqueue_notification_event-once e s i =
    ground
      (arith, find_item-none e.id s.outbox, find_item-some e.id s.outbox, text_eq.beq_iff i e.id)
