-- ===== src/Application/Notifications/Deliveries.antt =====
-- Deliveries and what they are found by, and the evidence of a success on a subscription.
use alert_hub.Prelude.{
  ℕ, Bool, true, false, ◌||◌, Option, none, some, [], ◌∷◌, Text, text_eq, nat_eq, ◌==◌, codes, take,
  find, ltb, if◌then◌else◌,
}
use alert_hub.Prelude.Table.{row_of, save}
use alert_hub.Runtime.{Value, Runtime, py_str}
use alert_hub.Runtime.Value.{null}
use alert_hub.Application.Rows.{Delivery, IncidentEvent, NotificationChannel, PushSubscription}
use alert_hub.Application.Store.{Store}

abbrev pub clean_char : ℕ → ℕ
clean_char c = if c == 13 || c == 10 then 32 else c

-- Line ends as spaces.
abbrev pub clean : Text → Text
clean [] = []
clean (c ∷ s) = clean_char c ∷ clean s

-- `_safe_status`
abbrev pub safe_status : Runtime → Value → Option Text
safe_status rt null = none
safe_status rt v = some (take 255 (clean (py_str rt v)))

abbrev pub succeeded_status : Text
succeeded_status = codes "succeeded"

abbrev pub is_succeeded : Delivery → Bool
is_succeeded d = d.status == succeeded_status

abbrev pub delivery_of : Text → Store → Option Delivery
delivery_of i s = row_of (λ (d : Delivery). d.id) i s.deliveries

abbrev pub subscription_of : Text → Store → Option PushSubscription
subscription_of i s = row_of (λ (p : PushSubscription). p.id) i s.subscriptions

abbrev pub channel_of : Text → Store → Option NotificationChannel
channel_of i s = row_of (λ (x : NotificationChannel). x.id) i s.channels

-- `db.get(IncidentEvent, id)`
abbrev pub get_event : Text → Store → Option IncidentEvent
get_event i s = find (λ (e : IncidentEvent). i == e.id) s.incident_events

abbrev pub save_delivery : Delivery → Store → Store
save_delivery d s = record s { deliveries = save (λ (x : Delivery). x.id) d s.deliveries }

abbrev pub save_subscription : PushSubscription → Store → Store
save_subscription p s = record s {
  subscriptions = save (λ (x : PushSubscription). x.id) p s.subscriptions;
}

abbrev pub is_later : ℕ → Option ℕ → Bool
is_later t none = true
is_later t (some u) = ltb u t

-- The subscription, and whether it was changed.
unfoldable pub advance_push_subscription_success : PushSubscription → ℕ → PushSubscription × Bool
advance_push_subscription_success p t =
    if is_later t p.last_success_at
    then (record p { last_success_at = some t }, true)
    else (p, false)
