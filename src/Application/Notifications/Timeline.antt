-- ===== src/Application/Notifications/Timeline.antt =====
-- `_apply_delivery_timeline`: the event that a receipt adds to the timeline.
use alert_hub.Prelude.{
  ℕ, not, ◌||◌, Option, none, some, is_some, ◌∷◌, ◌++◌, Text, text_eq, nat_eq, ◌==◌, codes, take,
  nonempty, or_else, ltb, Result, ok, raise, if◌then◌else◌,
}
use alert_hub.Runtime.{
  Value, Fields, Runtime, get, truthy, py_str, str_or, str_or_empty, text_or_null, or_value, to_int,
}
use alert_hub.Runtime.Value.{number, text}
use alert_hub.Runtime.Fields.{end, field}
use alert_hub.Domain.Time.{to_utc, replace_z}
use alert_hub.Domain.Events.Defs.{EventType}
use alert_hub.Application.Rows.{Delivery, IncidentEvent}
use alert_hub.Application.Store.{Context, Store}
use alert_hub.Application.Notifications.Deliveries.{safe_status, succeeded_status, get_event}

-- The type of the timeline event of a receipt.
abbrev pub receipt_type : Text → EventType
receipt_type status =
    if status == codes "sending"
    then EventType.other (codes "delivery_attempted")
    else if status == succeeded_status
    then EventType.other (codes "delivery_succeeded")
    else EventType.other (codes "delivery_failed")

-- `datetime.fromisoformat(str(value).replace("Z", "+00:00"))`
abbrev pub parse_time : Runtime → Value → Option ℕ
parse_time rt v = elim (rt.from_iso (replace_z (py_str rt v))) [
  | none ↦ none
  | some d ↦ some (to_utc d)
]

abbrev pub int_or : Result ℕ → ℕ → ℕ
int_or (ok n) default = n
int_or (raise e) default = default

-- `int(payload.get(name) or default)`
abbrev pub int_field : Runtime → Text → ℕ → Fields → Result ℕ
int_field rt k default payload =
    let v = get k payload in if truthy v then to_int rt v else ok default

unfoldable pub receipt_details : Runtime → Fields → Delivery → Fields
unfolding py_str
receipt_details rt payload d = field (codes "delivery_id") (text d.id) (
    field (codes "channel_id") (text d.channel_id) (
      field (codes "subscription_id") (text_or_null d.subscription_id) (
        field (codes "owner_node_id")
          (text (str_or rt (get (codes "owner_node_id") payload) d.owner_node_id))
          (field (codes "attempt")
            (number (int_or (int_field rt (codes "attempt") d.attempt payload) d.attempt))
            (field (codes "status") (text (str_or rt (get (codes "status") payload) d.status)) (
              field (codes "provider_status")
                (text_or_null (safe_status rt (get (codes "provider_status") payload)))
                (field (codes "error_code")
                  (text_or_null (safe_status rt (get (codes "error_code") payload)))
                  (field (codes "source_event_id") (text d.event_id) end))))))))

-- `f"delivery:{delivery.id}:{delivery.attempt}:{delivery.status}"`
abbrev pub receipt_key : Runtime → Delivery → Text
receipt_key rt d =
    codes "delivery:"
    ++ (d.id ++ (codes ":" ++ (py_str rt (number d.attempt) ++ (codes ":" ++ d.status))))

-- The timeline event of a receipt of the source event.
unfoldable pub receipt_event : Context → Fields → Delivery → IncidentEvent → ℕ → IncidentEvent
unfolding receipt_details
receipt_event c payload d source_event origin_seq = record {
  id = str_or_empty c.rt (get (codes "receipt_event_id") payload);
  origin_node_id = take 128 (str_or_empty c.rt (get (codes "receipt_origin_node_id") payload));
  origin_seq = origin_seq;
  event_key = take 128 (str_or c.rt (get (codes "receipt_event_key") payload) (receipt_key c.rt d));
  incident_id = source_event.incident_id;
  event_type = receipt_type (str_or c.rt (get (codes "status") payload) d.status);
  occurred_at =
      or_else
        (parse_time c.rt (
          or_value (get (codes "receipt_occurred_at") payload) (get (codes "finished_at") payload)))
        source_event.received_at;
  received_at = c.now;
  payload = receipt_details c.rt payload d;
}

abbrev pub add_event : Option IncidentEvent → Store → Store
add_event none s = s
add_event (some e) s = record s { incident_events = e ∷ s.incident_events }

-- The event that `_apply_delivery_timeline` adds, if it adds one.
unfoldable pub timeline_row : Context → Fields → Delivery → Store → Option IncidentEvent
unfolding str_or_empty
timeline_row c payload d s =
    let receipt_event_id = str_or_empty c.rt (get (codes "receipt_event_id") payload) in
    let origin_node_id = str_or_empty c.rt (get (codes "receipt_origin_node_id") payload) in
    let origin_seq = int_or (int_field c.rt (codes "receipt_origin_seq") 0 payload) 0 in
    if not (nonempty receipt_event_id) || not (nonempty origin_node_id) || ltb origin_seq 1
    then none
    else if is_some (get_event receipt_event_id s)
    then none
    else elim (get_event d.event_id s) [
      | none ↦ none
      | some source_event ↦ some (receipt_event c payload d source_event origin_seq)
    ]

abbrev pub apply_delivery_timeline : Context → Fields → Delivery → Store → Store
apply_delivery_timeline c payload d s = add_event (timeline_row c payload d s) s
