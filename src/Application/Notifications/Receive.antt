-- ===== src/Application/Notifications/Receive.antt =====
-- What a receipt does to the deliveries.
use mathlib.Core.Path.{subst}
use alert_hub.Prelude.{
  ◌≢◌, text_beq_iff, Option-cases, ℕ, ◌≡◌, ◌≤◌, refl, sym, ap, ◌∙◌, Bool, true, ◌&&◌, Option, none,
  some, is_some, [], Text, text_eq, ◌==◌, codes, nonempty, or_else, arith, inl, inr, Bool-cases, ok,
  ok_injective, >>=-eq-ok, if◌then◌else◌,
}
use alert_hub.Prelude.Table.{row_of, save, row_of-save, row_of-key}
use alert_hub.Runtime.{Fields, get, str_or, str_or_empty}
use alert_hub.Application.Rows.{Delivery, IncidentEvent, PushSubscription}
use alert_hub.Application.Store.{Context, Store}
use alert_hub.Application.Notifications.Timeline.{add_event, timeline_row}
use alert_hub.Application.Notifications.Receipts.{
  advance_if_there, apply_delivery_receipt, apply_known_receipt, finish_receipt, settled, receive,
  receive_known, received_delivery, receipt_finish, receipt_source, record_success, regresses,
}
use alert_hub.Application.Notifications.Deliveries.{
  delivery_of, is_succeeded, channel_of, save_delivery, subscription_of, succeeded_status,
}

add_event-deliveries :
    (e : Option IncidentEvent) (s : Store) → (add_event e s).deliveries ≡ s.deliveries
add_event-deliveries none s = refl
add_event-deliveries (some e) s = refl

advance_if_there-deliveries :
    (p : Option PushSubscription) (t : ℕ) (s : Store)
    → (advance_if_there p t s).deliveries ≡ s.deliveries
advance_if_there-deliveries none t s = refl
advance_if_there-deliveries (some p) t s = refl

record_success-deliveries :
    (d : Delivery) (t : Option ℕ) (s : Store) → (record_success d t s).deliveries ≡ s.deliveries
record_success-deliveries d none s = refl
record_success-deliveries d (some t) s =
    ground
      (arith, advance_if_there-deliveries (subscription_of (or_else d.subscription_id []) s) t s)

pub finish_receipt-deliveries :
    (c : Context) (payload : Fields) (d : Delivery) (s : Store)
    → (finish_receipt c payload d s).deliveries
      ≡ save (λ (x : Delivery). x.id) (settled c payload d) s.deliveries
unfolding finish_receipt
finish_receipt-deliveries c payload d s =
    let e = settled c payload d in
    let t = receipt_finish c.rt payload in
    let saved = record_success e t (save_delivery e s) in
    add_event-deliveries (timeline_row c payload e saved) saved
    ∙ record_success-deliveries e t (save_delivery e s)

-- The delivery that is found after a receipt.
pub finish_receipt-delivery_of :
    (c : Context) (payload : Fields) (d : Delivery) (s : Store) (i : Text)
    → delivery_of i (finish_receipt c payload d s)
      ≡ (if i == d.id then some (settled c payload d) else delivery_of i s)
finish_receipt-delivery_of c payload d s i =
    ap (row_of (λ (x : Delivery). x.id) i) (finish_receipt-deliveries c payload d s)
    ∙ row_of-save (λ (x : Delivery). x.id) i (settled c payload d) s.deliveries

-- A delivery that is updated keeps its id, takes the status, and does not lose an attempt.
received_delivery-kept :
    (c : Context) (payload : Fields) (e : IncidentEvent) (i x status : Text) (d : Delivery)
    {r : Delivery}
    → received_delivery c payload e i x status (some d) ≡ ok r
    → (r.id ≡ d.id) × (r.status ≡ status) × (d.attempt ≤ r.attempt)
unfolding received_delivery
received_delivery-kept c payload e i x status d {r} h = grind (arith, h)

received_delivery-id :
    (c : Context) (payload : Fields) (e : IncidentEvent) (i x status : Text) {r : Delivery}
    → received_delivery c payload e i x status none ≡ ok r
    → r.id ≡ i
unfolding received_delivery
received_delivery-id c payload e i x status {r} h = grind (arith, h)

some_injective : {A : Type 0} {a b : A} → ◌≡◌ {A = Option A} (some a) (some b) → a ≡ b
some_injective h = cc

none_not_some : {A : Type 0} {a : A} → ◌≢◌ {A = Option A} none (some a)
none_not_some h = cc

-- What a receipt keeps of a delivery that succeeded.
abbrev pub Keeps : Text → Delivery → Store → Type 0
Keeps i d s =
    (e : Delivery) × (delivery_of i s ≡ some e) × (is_succeeded e ≡ true) × (d.attempt ≤ e.attempt)

Keeps-same :
    (i : Text) (d : Delivery) (s s' : Store)
    → s'.deliveries ≡ s.deliveries
    → delivery_of i s ≡ some d
    → is_succeeded d ≡ true
    → Keeps i d s'
Keeps-same i d s s' same found done =
    (d, ap (row_of (λ (x : Delivery). x.id) i) same ∙ found, done, omega arith)

-- The delivery that is written takes the place of the one with its id only.
finish_receipt-Keeps :
    (c : Context) (payload : Fields) (g : Delivery) (s : Store) (i : Text) (d : Delivery)
    → delivery_of i s ≡ some d
    → is_succeeded d ≡ true
    → (i ≡ g.id → (g.status ≡ succeeded_status) × (d.attempt ≤ g.attempt))
    → Keeps i d (finish_receipt c payload g s)
finish_receipt-Keeps c payload g s i d found done allowed =
    let written = finish_receipt-delivery_of c payload g s i in
    elim (Bool-cases (i == g.id)) [
      | inl same ↦ (
        settled c payload g,
        ground (arith, written, same),
        ground
            (arith, allowed ((text_beq_iff i g.id).0 same), text_beq_iff g.status succeeded_status),
        (allowed ((text_beq_iff i g.id).0 same)).1,
      )
      | inr other ↦ (d, ground (arith, written, other, found), done, omega arith)
    ]

-- A receipt that is taken in with a status that does not regress.
receive-Keeps :
    (c : Context) (payload : Fields) (e : IncidentEvent) (j x status : Text) (s : Store)
    {r : Store × Bool} (o : Option Delivery)
    → delivery_of j s ≡ o
    → receive c payload e j x status o s ≡ ok r
    → (i : Text) (d : Delivery) → delivery_of i s ≡ some d
    → is_succeeded d ≡ true
    → (i ≡ j → status ≡ succeeded_status)
    → Keeps i d r.0
unfolding receive
receive-Keeps c payload e j x status s {r = r} none missing h i d found done allowed =
    let (g, received, finished) =
      >>=-eq-ok (received_delivery c payload e j x status none)
        (λ d. ok (finish_receipt c payload d s, true)) h in
    let named = received_delivery-id c payload e j x status received in
    subst (λ (q : Store × Bool). Keeps i d q.0)
      (ok_injective (finish_receipt c payload g s, true) r finished)
      (finish_receipt-Keeps c payload g s i d found done (λ same.
        absurd
          (none_not_some (sym missing ∙ ap (λ k. delivery_of k s) (sym (same ∙ named)) ∙ found))))
receive-Keeps c payload e j x status s {r} (some f) there h i d found done allowed =
    let (g, received, finished) =
      >>=-eq-ok (received_delivery c payload e j x status (some f))
        (λ d. ok (finish_receipt c payload d s, true)) h in
    let (named, given, more) = received_delivery-kept c payload e j x status f received in
    let id_of = row_of-key (λ (y : Delivery). y.id) j s.deliveries f there in
    subst (λ (q : Store × Bool). Keeps i d q.0)
      (ok_injective (finish_receipt c payload g s, true) r finished)
      (finish_receipt-Keeps c payload g s i d found done (λ same.
        let is_j = same ∙ named ∙ id_of in
        (
          given ∙ allowed is_j,
          ground (arith, more, some_injective (sym found ∙ ap (λ k. delivery_of k s) is_j ∙ there)),
        )))

receive_known-Keeps :
    (c : Context) (payload : Fields) (e : IncidentEvent) (j x status : Text) (s : Store)
    {r : Store × Bool} (o : Option Delivery)
    → delivery_of j s ≡ o
    → receive_known c payload e j x status o s ≡ ok r
    → (i : Text) (d : Delivery) → delivery_of i s ≡ some d
    → is_succeeded d ≡ true
    → Keeps i d r.0
unfolding receive_known
receive_known-Keeps c payload e j x status s {r = r} none missing h i d found done =
    let absent = λ (same : i ≡ j).
      none_not_some (sym missing ∙ ap (λ k. delivery_of k s) (sym same) ∙ found) in
    elim (Bool-cases (is_some (channel_of x s))) [
      | inl has_channel ↦
          receive-Keeps c payload e j x status s {r = r} none missing
            (ground (arith, h, has_channel)) i d found done (λ same. absurd (absent same))
      | inr no_channel ↦ Keeps-same i d s r.0 (ground (arith, h, no_channel)) found done
    ]
receive_known-Keeps c payload e j x status s {r} (some f) there h i d found done =
    elim (Bool-cases (regresses f status)) [
      | inl lost ↦
          Keeps-same i d s r.0
            (ground (arith, h, lost, add_event-deliveries (timeline_row c payload f s) s)) found
            done
      | inr kept ↦
          receive-Keeps c payload e j x status s {r = r} (some f) there (ground (arith, h, kept)) i
            d found done
            (λ same.
              let is_f = some_injective (sym found ∙ ap (λ k. delivery_of k s) same ∙ there) in
              ground (
                arith,
                kept,
                ap (λ (q : Delivery). q.status) is_f,
                text_beq_iff status succeeded_status,
                done,
              ))
    ]

-- Every receipt that is applied without an error, whatever it says and of whatever delivery it is,
-- leaves a delivery that had succeeded in the table, succeeded, and with no fewer attempts.
pub apply_delivery_receipt-Keeps :
    (c : Context) (payload : Fields) (s : Store) {r : Store × Bool}
    → apply_delivery_receipt c payload s ≡ ok r
    → (i : Text) (d : Delivery) → delivery_of i s ≡ some d
    → is_succeeded d ≡ true
    → Keeps i d r.0
unfolding apply_delivery_receipt apply_known_receipt
apply_delivery_receipt-Keeps c payload s {r} h i d found done =
    let delivery_id = str_or_empty c.rt (get (codes "delivery_id") payload) in
    let channel_id = str_or_empty c.rt (get (codes "channel_id") payload) in
    let status = str_or c.rt (get (codes "status") payload) (codes "pending") in
    elim (Option-cases (receipt_source c.rt payload s)) [
      | inl missing ↦ Keeps-same i d s r.0 (ground (arith, h, missing)) found done
      | inr (e, there) ↦ elim (Bool-cases (nonempty delivery_id && nonempty channel_id)) [
        | inl named ↦
            receive_known-Keeps c payload e delivery_id channel_id status s {r = r}
              (delivery_of delivery_id s) refl (ground (arith, h, there, named)) i d found done
        | inr unnamed ↦ Keeps-same i d s r.0 (ground (arith, h, there, unnamed)) found done
      ]
    ]
