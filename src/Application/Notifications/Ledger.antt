-- ===== src/Application/Notifications/Ledger.antt =====
-- The receipts that the worker writes, and the attempt that begins: `_append_receipt` and
-- `_begin_delivery`.
use alert_hub.Prelude.{
  ℕ, ◌+◌, Bool, true, ◌&&◌, ◌||◌, Option, none, some, is_some, ◌++◌, Text, text_eq, nat_eq, ◌==◌,
  codes, or_else, Result, ok, ◌>>=◌, if◌then◌else◌,
}
use alert_hub.Prelude.Table.{row_of, save}
use alert_hub.Runtime.{Fields, Runtime, py_str, update}
use alert_hub.Runtime.Value.{number, text}
use alert_hub.Runtime.Fields.{end, field}
use alert_hub.Application.Rows.{ClusterEvent, Delivery, IncidentEvent}
use alert_hub.Application.Store.{Context, Store, append_cluster_event}
use alert_hub.Application.Notifications.Messages.{delivery_receipt_payload}
use alert_hub.Application.Notifications.Receipts.{apply_delivery_receipt}
use alert_hub.Application.Notifications.Deliveries.{
  channel_of, delivery_of, get_event, is_succeeded, save_delivery, succeeded_status,
}

pub record TargetDescriptor : Type 0 where
  pub channel_id : Text
  pub subscription_id : Option Text

pub record TargetProgress : Type 0 where
  pub terminal : Bool
  pub available_at : Option ℕ
  pub error_code : Option Text

abbrev pub finished : Option Text → TargetProgress
finished error_code = record { terminal = true; available_at = none; error_code = error_code }

pub data DeliveryOutcome : Type 0 where
  succeeded retryable permanent gone : DeliveryOutcome

pub record DeliveryResult : Type 0 where
  pub outcome : DeliveryOutcome
  pub provider_status : Option Text
  pub error_code : Option Text

-- `status in {"succeeded", "failed", "gone"}`
abbrev pub is_final : Delivery → Bool
is_final d = is_succeeded d || (d.status == codes "failed" || d.status == codes "gone")

-- `f"{delivery.id}:{delivery.owner_node_id}:{delivery.attempt}:{delivery.status}"`
abbrev pub receipt_identity : Runtime → Delivery → Text
receipt_identity rt d =
    d.id
    ++ (codes ":"
        ++ (d.owner_node_id
            ++ (codes ":" ++ (py_str rt (number d.attempt) ++ (codes ":" ++ d.status)))))

abbrev pub receipt_id : Runtime → Delivery → Text
receipt_id rt d = rt.uuid5 (codes "alert-hub:receipt:" ++ receipt_identity rt d)

abbrev pub receipt_operation : Text → Text
receipt_operation status =
    if status == codes "sending"
    then codes "delivery_attempted"
    else if status == succeeded_status
    then codes "delivery_succeeded"
    else codes "delivery_failed"

-- What the receipt says of itself.
unfoldable pub receipt_metadata : Runtime → Delivery → ClusterEvent → Fields
unfolding py_str
receipt_metadata rt d e = field (codes "receipt_event_id") (text e.event_id) (
    field (codes "receipt_origin_node_id") (text e.origin_node_id) (
      field (codes "receipt_origin_seq") (number e.origin_seq) (
        field (codes "receipt_occurred_at") (text (rt.iso_format e.occurred_at)) (
          field (codes "receipt_event_key") (text (codes "delivery:" ++ receipt_identity rt d))
            end))))

abbrev pub cluster_event_of : Text → Store → Option ClusterEvent
cluster_event_of i s = row_of (λ (e : ClusterEvent). e.event_id) i s.cluster_events

abbrev pub save_cluster_event : ClusterEvent → Store → Store
save_cluster_event e s = record s {
  cluster_events = save (λ (x : ClusterEvent). x.event_id) e s.cluster_events;
}

-- A receipt that is new, of an event that is there.
unfoldable pub write_receipt : Context → Delivery → Option ℕ → IncidentEvent → Store → Result Store
unfolding delivery_receipt_payload receipt_metadata update save py_str apply_delivery_receipt
write_receipt c d occurred_at source_event s =
    let payload = delivery_receipt_payload c.rt d source_event.event_key in
    let appended =
      append_cluster_event c (codes "delivery_receipt") d.id (receipt_operation d.status) payload
        (or_else occurred_at (or_else d.finished_at c.now)) (some (receipt_id c.rt d)) s in
    let replicated = update payload (receipt_metadata c.rt d appended.1) in
    apply_delivery_receipt c replicated
      (save_cluster_event (record appended.1 { payload = replicated }) appended.0)
    >>= λ r. ok r.0

abbrev pub write_receipt_of :
    Context → Delivery → Option ℕ → Option IncidentEvent → Store → Result Store
write_receipt_of c d occurred_at none s = ok s
write_receipt_of c d occurred_at (some e) s = write_receipt c d occurred_at e s

unfoldable pub append_receipt : Context → Delivery → Option ℕ → Store → Result Store
unfolding write_receipt py_str
append_receipt c d occurred_at s =
    if is_some (cluster_event_of (receipt_id c.rt d) s)
    then ok s
    else write_receipt_of c d occurred_at (get_event d.event_id s) s

abbrev pub new_delivery : Context → Text → Text → TargetDescriptor → Text → Text → Delivery
new_delivery c delivery_id event_id t owner_node_id status = record {
  id = delivery_id;
  event_id = event_id;
  channel_id = t.channel_id;
  subscription_id = t.subscription_id;
  owner_node_id = owner_node_id;
  attempt = 0;
  status = status;
  provider_status = none;
  error_code = none;
  created_at = c.now;
  finished_at = none;
}

-- The attempt that begins.
abbrev pub begun : Context → Delivery → Delivery
begun c d = record d {
  owner_node_id = c.node_id;
  attempt = d.attempt + 1;
  status = codes "sending";
  provider_status = none;
  error_code = none;
  finished_at = none;
}

abbrev pub begin_with : Context → Delivery → Store → Result (Store × Option Delivery)
begin_with c d s =
    if is_final d
    then ok (s, some d)
    else (append_receipt c (begun c d) (some c.now) (save_delivery (begun c d) s) >>= λ s'.
        ok (s', delivery_of d.id s'))

-- The delivery after its attempt began; `none` where its channel or its event is gone.
unfoldable pub begin_delivery :
    Context → Text → Text → TargetDescriptor → Store → Result (Store × Option Delivery)
unfolding append_receipt save
begin_delivery c delivery_id event_id t s =
    if is_some (channel_of t.channel_id s) && is_some (get_event event_id s)
    then begin_with c
        (or_else (delivery_of delivery_id s)
          (new_delivery c delivery_id event_id t c.node_id (codes "pending")))
        s
    else ok (s, none)
