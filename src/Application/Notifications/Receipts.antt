-- ===== src/Application/Notifications/Receipts.antt =====
-- `apply_delivery_receipt`.
use alert_hub.Prelude.{
  ℕ, max, Bool, true, false, not, ◌&&◌, Option, none, some, is_some, [], Text, text_eq, nat_eq,
  ◌==◌, codes, nonempty, or_else, Result, ok, ◌>>=◌, if◌then◌else◌,
}
use alert_hub.Prelude.Table.{save}
use alert_hub.Runtime.{Fields, Runtime, get, truthy, str_or, str_or_none, str_or_empty, or_value}
use alert_hub.Application.Rows.{Delivery, IncidentEvent, PushSubscription}
use alert_hub.Application.Store.{Context, Store, find_event}
use alert_hub.Application.Notifications.Deliveries.{
  safe_status, succeeded_status, is_succeeded, delivery_of, subscription_of, channel_of, get_event,
  save_delivery, save_subscription, advance_push_subscription_success,
}
use alert_hub.Application.Notifications.Timeline.{
  parse_time, int_field, timeline_row, apply_delivery_timeline,
}

-- The event that a receipt is about: by its key, or else by its id.
unfoldable pub receipt_source : Runtime → Fields → Store → Option IncidentEvent
unfolding str_or_empty
receipt_source rt payload s =
    let key = str_or_empty rt (get (codes "source_event_key") payload) in
    let id =
      str_or_empty rt
        (or_value (get (codes "event_id") payload) (get (codes "source_event_id") payload)) in
    let by_key = if nonempty key then find_event key s else none in
    elim by_key [ some e ↦ some e | none ↦ if nonempty id then get_event id s else none ]

-- The delivery that a receipt creates, or the one that it updates.
unfoldable pub received_delivery :
    Context → Fields → IncidentEvent → Text → Text → Text → Option Delivery → Result Delivery
received_delivery c payload source_event delivery_id channel_id status none =
    int_field c.rt (codes "attempt") 0 payload >>= λ attempt. ok (record {
      id = delivery_id;
      event_id = source_event.id;
      channel_id = channel_id;
      subscription_id = str_or_none c.rt (get (codes "subscription_id") payload);
      owner_node_id = str_or c.rt (get (codes "owner_node_id") payload) (codes "unknown");
      attempt = attempt;
      status = status;
      provider_status = none;
      error_code = none;
      created_at = c.now;
      finished_at = none;
    })
received_delivery c payload source_event delivery_id channel_id status (some d) =
    int_field c.rt (codes "attempt") 0 payload >>= λ attempt. ok (record d {
      owner_node_id = str_or c.rt (get (codes "owner_node_id") payload) d.owner_node_id;
      attempt = max d.attempt attempt;
      status = status;
    })

-- The time at which the receipt says that the delivery ended, where it can be parsed.
abbrev pub receipt_finish : Runtime → Fields → Option ℕ
receipt_finish rt payload =
    let v = get (codes "finished_at") payload in if truthy v then parse_time rt v else none

abbrev pub advance_if_there : Option PushSubscription → ℕ → Store → Store
advance_if_there none t s = s
advance_if_there (some p) t s = save_subscription (advance_push_subscription_success p t).0 s

-- The evidence of a success on its subscription.
abbrev pub record_success : Delivery → Option ℕ → Store → Store
record_success d none s = s
record_success d (some t) s =
    if is_succeeded d && nonempty (or_else d.subscription_id [])
    then advance_if_there (subscription_of (or_else d.subscription_id []) s) t s
    else s

-- The delivery with what the receipt says of its end.
abbrev pub settled : Context → Fields → Delivery → Delivery
settled c payload d = record d {
  provider_status = safe_status c.rt (get (codes "provider_status") payload);
  error_code = safe_status c.rt (get (codes "error_code") payload);
  finished_at =
      if is_some (receipt_finish c.rt payload) then receipt_finish c.rt payload else d.finished_at;
}

-- What follows once the delivery has its status.
unfoldable pub finish_receipt : Context → Fields → Delivery → Store → Store
unfolding timeline_row advance_push_subscription_success save
finish_receipt c payload d s = apply_delivery_timeline c payload (settled c payload d) (
    record_success (settled c payload d) (receipt_finish c.rt payload)
      (save_delivery (settled c payload d) s))

-- The delivery that the receipt gives, and what follows.
unfoldable pub receive :
    Context
    → Fields
    → IncidentEvent
    → Text
    → Text
    → Text
    → Option Delivery
    → Store
    → Result (Store × Bool)
unfolding finish_receipt received_delivery
receive c payload source_event delivery_id channel_id status existing s =
    received_delivery c payload source_event delivery_id channel_id status existing >>= λ d.
    ok (finish_receipt c payload d s, true)

-- Whether a delivery that succeeded would lose its success.
abbrev pub regresses : Delivery → Text → Bool
regresses d status = is_succeeded d && not (status == succeeded_status)

-- The branches on the delivery: a new one needs its channel, one that succeeded stays so.
unfoldable pub receive_known :
    Context
    → Fields
    → IncidentEvent
    → Text
    → Text
    → Text
    → Option Delivery
    → Store
    → Result (Store × Bool)
unfolding timeline_row
receive_known c payload source_event delivery_id channel_id status none s =
    if is_some (channel_of channel_id s)
    then receive c payload source_event delivery_id channel_id status none s
    else ok (s, false)
receive_known c payload source_event delivery_id channel_id status (some d) s =
    if regresses d status
    then ok (apply_delivery_timeline c payload d s, true)
    else receive c payload source_event delivery_id channel_id status (some d) s

-- A receipt of an event that is there.
unfoldable pub apply_known_receipt :
    Context → Fields → IncidentEvent → Text → Text → Store → Result (Store × Bool)
unfolding receive_known
apply_known_receipt c payload source_event delivery_id channel_id s =
    receive_known c payload source_event delivery_id channel_id
      (str_or c.rt (get (codes "status") payload) (codes "pending")) (delivery_of delivery_id s) s

abbrev pub apply_to_source :
    Context → Fields → Text → Text → Option IncidentEvent → Store → Result (Store × Bool)
apply_to_source c payload delivery_id channel_id none s = ok (s, false)
apply_to_source c payload delivery_id channel_id (some e) s =
    if nonempty delivery_id && nonempty channel_id
    then apply_known_receipt c payload e delivery_id channel_id s
    else ok (s, false)

-- The new store, and whether the receipt was taken in.
unfoldable pub apply_delivery_receipt : Context → Fields → Store → Result (Store × Bool)
unfolding str_or_empty receipt_source
apply_delivery_receipt c payload s =
    apply_to_source c payload (str_or_empty c.rt (get (codes "delivery_id") payload))
      (str_or_empty c.rt (get (codes "channel_id") payload)) (receipt_source c.rt payload s) s
