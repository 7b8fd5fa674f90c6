-- ===== src/Application/Notifications/RoundTrip.antt =====
-- A delivery as its receipt tells it to another node.
use alert_hub.Prelude.{
  ℕ, ◌≡◌, refl, ◌∙◌, Bool, true, ◌&&◌, Option, none, some, is_some, [], ◌∷◌, Text, text_eq,
  text_beq, text_beq_iff, nat_eq, codes, nonempty, arith, ok, if◌then◌else◌,
}
use alert_hub.Runtime.{
  Runtime, get, truthy, py_str, str_or, str_or_none, str_or_empty, text_or_null, iso_or_null,
}
use alert_hub.Runtime.Value.{text}
use alert_hub.Application.Rows.{Delivery, IncidentEvent}
use alert_hub.Application.Store.{Context, Store, find_event}
use alert_hub.Application.Notifications.Messages.{delivery_receipt_payload}
use alert_hub.Application.Notifications.Receipts.{
  apply_delivery_receipt, apply_known_receipt, finish_receipt, receipt_finish, receipt_source,
  receive, receive_known, received_delivery, settled,
}
use alert_hub.Application.Notifications.Deliveries.{channel_of, delivery_of, safe_status}
use alert_hub.Application.Notifications.Timeline.{int_field, parse_time}
use alert_hub.Application.Notifications.Receive.{finish_receipt-delivery_of}

-- Not `none` where it is the empty text.
abbrev pub is_id : Option Text → Bool
is_id none = true
is_id (some t) = nonempty t

-- What every delivery of the program has: the ids, an owner and a status.
abbrev pub is_named : Delivery → Bool
is_named d =
    nonempty d.id
    && (nonempty d.channel_id
        && (nonempty d.owner_node_id && (nonempty d.status && is_id d.subscription_id)))

-- A datetime that was printed is read back, and it is not the empty text.
abbrev pub ReadsTimes : Runtime → Type 0
ReadsTimes rt =
    (t : ℕ)
    → (parse_time rt (text (rt.iso_format t)) ≡ some t) × (nonempty (rt.iso_format t) ≡ true)

truthy_text : (t : Text) → nonempty t ≡ true → truthy (text t) ≡ true
unfolding truthy
truthy_text [] h = cc
truthy_text (x ∷ t) h = refl

str_or-text : (rt : Runtime) (t default : Text) → nonempty t ≡ true → str_or rt (text t) default ≡ t
unfolding py_str truthy
str_or-text rt [] default h = cc
str_or-text rt (x ∷ t) default h = refl

str_or_empty-text : (rt : Runtime) (t : Text) → str_or_empty rt (text t) ≡ t
unfolding str_or_empty py_str truthy
str_or_empty-text rt [] = refl
str_or_empty-text rt (x ∷ t) = refl

str_or_none-id :
    (rt : Runtime) (o : Option Text) → is_id o ≡ true → str_or_none rt (text_or_null o) ≡ o
unfolding py_str truthy
str_or_none-id rt none h = refl
str_or_none-id rt (some []) h = cc
str_or_none-id rt (some (x ∷ t)) h = refl

int_field-attempt :
    (rt : Runtime) (d : Delivery) (key : Text)
    → int_field rt (codes "attempt") 0 (delivery_receipt_payload rt d key) ≡ ok d.attempt
unfolding delivery_receipt_payload get truthy text_beq
int_field-attempt rt d key = ground arith

finish-iso :
    (rt : Runtime) (o : Option ℕ)
    → ReadsTimes rt
    → (if truthy (iso_or_null rt o) then parse_time rt (iso_or_null rt o) else none) ≡ o
unfolding truthy
finish-iso rt none reads = refl
finish-iso rt (some t) reads = rw (truthy_text (rt.iso_format t) (reads t).1) ((reads t).0)

receipt_finish-payload :
    (rt : Runtime) (d : Delivery) (key : Text)
    → ReadsTimes rt
    → receipt_finish rt (delivery_receipt_payload rt d key) ≡ d.finished_at
unfolding delivery_receipt_payload get text_beq
receipt_finish-payload rt d key reads = finish-iso rt d.finished_at reads

receipt_source-payload :
    (rt : Runtime) (d : Delivery) (key : Text) (s : Store) (e : IncidentEvent)
    → nonempty key ≡ true
    → find_event key s ≡ some e
    → receipt_source rt (delivery_receipt_payload rt d key) s ≡ some e
unfolding delivery_receipt_payload get text_beq receipt_source
receipt_source-payload rt d key s e named found =
    ground (arith, str_or_empty-text rt key, named, found)

-- The delivery that another node has of it: its row is that node's.
abbrev pub replica : Context → IncidentEvent → Delivery → Delivery
replica c e d = record d { event_id = e.id; created_at = c.now }

received_delivery-payload :
    (c : Context) (d : Delivery) (key : Text) (e : IncidentEvent)
    → is_named d ≡ true
    → received_delivery c (delivery_receipt_payload c.rt d key) e d.id d.channel_id d.status none
      ≡ ok
          (record (replica c e d) { provider_status = none; error_code = none; finished_at = none })
unfolding received_delivery delivery_receipt_payload get text_beq
received_delivery-payload c d key e named =
    rw
      (
        int_field-attempt c.rt d key,
        str_or_none-id c.rt d.subscription_id (ground (arith, named)),
        str_or-text c.rt d.owner_node_id (codes "unknown") (ground (arith, named)),
      )
      refl

-- A text that was cut and cleaned already is not changed by it.
abbrev pub IsClean : Runtime → Option Text → Type 0
IsClean rt o = safe_status rt (text_or_null o) ≡ o

settled-payload :
    (c : Context) (d : Delivery) (key : Text) (e : IncidentEvent)
    → IsClean c.rt d.provider_status
    → IsClean c.rt d.error_code
    → ReadsTimes c.rt
    → settled c
        (delivery_receipt_payload c.rt d key)
        (record (replica c e d) { provider_status = none; error_code = none; finished_at = none })
      ≡ replica c e d
unfolding delivery_receipt_payload get text_beq
settled-payload c d key e status code reads =
    rw (finish-iso c.rt d.finished_at reads, status, code) (ended d.finished_at)
  where
    ended :
        (o : Option ℕ)
        → (record (replica c e d) { finished_at = if is_some o then o else none })
          ≡ (record (replica c e d) { finished_at = o })
    ended none = refl
    ended (some t) = refl

status-payload :
    (rt : Runtime) (d : Delivery) (key : Text)
    → is_named d ≡ true
    → str_or rt (get (codes "status") (delivery_receipt_payload rt d key)) (codes "pending")
      ≡ d.status
unfolding delivery_receipt_payload get text_beq
status-payload rt d key named = str_or-text rt d.status (codes "pending") (ground (arith, named))

ids_nonempty : (d : Delivery) → is_named d ≡ true → (nonempty d.id && nonempty d.channel_id) ≡ true
ids_nonempty d named = ground (arith, named)

ids-payload :
    (rt : Runtime) (d : Delivery) (key : Text)
    → (str_or_empty rt (get (codes "delivery_id") (delivery_receipt_payload rt d key)) ≡ d.id)
      × (str_or_empty rt (get (codes "channel_id") (delivery_receipt_payload rt d key))
          ≡ d.channel_id)
unfolding delivery_receipt_payload get text_beq
ids-payload rt d key = (str_or_empty-text rt d.id, str_or_empty-text rt d.channel_id)

apply_known_receipt-payload :
    (c : Context) (d : Delivery) (key : Text) (e : IncidentEvent) (s : Store)
    → is_named d ≡ true
    → is_some (channel_of d.channel_id s) ≡ true
    → delivery_of d.id s ≡ none
    → apply_known_receipt c (delivery_receipt_payload c.rt d key) e d.id d.channel_id s
      ≡ ok (
        finish_receipt c
            (delivery_receipt_payload c.rt d key)
            (record (replica c e d) {
              provider_status = none;
              error_code = none;
              finished_at = none;
            })
            s,
        true,
      )
unfolding apply_known_receipt receive_known receive
apply_known_receipt-payload c d key e s named there new =
    rw (new, there, status-payload c.rt d key named, received_delivery-payload c d key e named) refl

-- A node that has the event and the channel of a delivery, but not the delivery, takes its receipt in
-- and has from then on the same delivery: its ids, owner, attempts, status, answer and end, with that
-- node's id of the event and its own time of creation. The texts of the answer are ones that were
-- cut before, and times are read back as they were printed.
pub apply_delivery_receipt-payload :
    (c : Context) (d : Delivery) (key : Text) (e : IncidentEvent) (s : Store)
    → is_named d ≡ true
    → nonempty key ≡ true
    → IsClean c.rt d.provider_status
    → IsClean c.rt d.error_code
    → ReadsTimes c.rt
    → find_event key s ≡ some e
    → is_some (channel_of d.channel_id s) ≡ true
    → delivery_of d.id s ≡ none
    → (t : Store) × (apply_delivery_receipt c (delivery_receipt_payload c.rt d key) s
        ≡ ok (t, true))
      × (delivery_of d.id t ≡ some (replica c e d))
unfolding apply_delivery_receipt
apply_delivery_receipt-payload c d key e s named has_key status code reads found there new =
    let payload = delivery_receipt_payload c.rt d key in
    let g : Delivery = record (replica c e d) {
      provider_status = none;
      error_code = none;
      finished_at = none;
    } in
    let (id_is, channel_is) = ids-payload c.rt d key in
    (
      finish_receipt c payload g s,
      rw
          (
            receipt_source-payload c.rt d key s e has_key found,
            id_is,
            channel_is,
            ids_nonempty d named,
            apply_known_receipt-payload c d key e s named there new,
          )
          refl,
      finish_receipt-delivery_of c payload g s d.id
          ∙ ground (arith, text_beq_iff d.id d.id, settled-payload c d key e status code reads),
    )
