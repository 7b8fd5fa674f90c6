-- ===== src/Application/Notifications/Backlog.antt =====
-- `update_notification_backlog_metrics`: what it counts. Its gauges are left out.
use alert_hub.Prelude.{
  ℕ, zero, min, Bool, true, false, not, ◌&&◌, Option, none, some, is_none, List, [], ◌∷◌, Text,
  text_eq, ◌==◌, any, codes, find, keep, length, map, if◌then◌else◌,
}
use alert_hub.Domain.Routing.Rules.{RouteRule, select_channel_ids}
use alert_hub.Application.Rows.{
  Delivery, Incident, IncidentEvent, NotificationChannel, OutboxItem, PushSubscription,
}
use alert_hub.Application.Store.{Context, Store, get_incident}
use alert_hub.Application.Outbox.Defs.{should_deliver_notification}
use alert_hub.Application.PushSessions.{is_active, is_enabled, push_subscription_session_state}
use alert_hub.Application.Notifications.Deliveries.{channel_of, get_event}
use alert_hub.Application.Notifications.Ledger.{is_final}
use alert_hub.Application.Notifications.Prepare.{is_open}
use alert_hub.Application.Notifications.Routes.{notification_route_rules, rank_of}

-- An item that is not complete, with its event and its incident.
abbrev pub Pending : Type 0
Pending = IncidentEvent × Incident

abbrev pub with_incident : IncidentEvent → Option Incident → List Pending → List Pending
with_incident e none rest = rest
with_incident e (some i) rest = (e, i) ∷ rest

abbrev pub with_event : Option IncidentEvent → Store → List Pending → List Pending
with_event none s rest = rest
with_event (some e) s rest = with_incident e (get_incident e.incident_id s) rest

-- The join of the outbox with the events and the incidents.
unfoldable pub pending_items : List OutboxItem → Store → List Pending
pending_items [] s = []
pending_items (o ∷ os) s =
    let rest = pending_items os s in
    if is_none o.completed_at then with_event (get_event o.event_id s) s rest else rest

-- The push subscriptions that can receive; nothing is changed.
unfoldable pub receivers : ℕ → Store → List (Option Text)
unfolding push_subscription_session_state
receivers now s =
    map (λ (p : PushSubscription). some p.id)
      (keep (λ p. is_enabled p && is_active (push_subscription_session_state p now s))
        s.subscriptions)

abbrev pub same_subscription : Option Text → Option Text → Bool
same_subscription none none = true
same_subscription (some a) (some b) = a == b
same_subscription _ _ = false

-- The delivery of the target is not there, or it is not final.
abbrev pub is_unsettled : Text → Text → Store → Option Text → Bool
is_unsettled event_id channel_id s target =
    elim (find
      (λ (d : Delivery).
        d.event_id == event_id
        && (d.channel_id == channel_id && same_subscription d.subscription_id target))
      s.deliveries) [ none ↦ true | some d ↦ not (is_final d) ]

abbrev pub targets_of_kind : NotificationChannel → List (Option Text) → List (Option Text)
targets_of_kind x subscriptions = if x.kind == codes "web_push" then subscriptions else none ∷ []

abbrev pub is_first : Option ℕ → Bool
is_first (some zero) = true
is_first _ = false

-- This node is the first of the ranking of an open channel, and one of its targets is not settled.
abbrev pub owns_channel :
    Context → IncidentEvent → List (Option Text) → Option NotificationChannel → Store → Bool
owns_channel c e subscriptions none s = false
owns_channel c e subscriptions (some x) s =
    is_open x
    && (is_first (rank_of c.rt c.node_id e.event_key x s).0
        && any (is_unsettled e.id x.id s) (targets_of_kind x subscriptions))

unfoldable pub owns_pending : Context → List RouteRule → List (Option Text) → Store → Pending → Bool
unfolding rank_of
owns_pending c routes subscriptions s (e, i) =
    should_deliver_notification e
    && any (λ channel_id. owns_channel c e subscriptions (channel_of channel_id s) s)
        (select_channel_ids c.rt routes i.source_id i.severity i.labels)

abbrev pub earliest_received : List Pending → Option ℕ
earliest_received [] = none
earliest_received ((e, i) ∷ rest) = elim (earliest_received rest) [
  | none ↦ some e.received_at
  | some t ↦ some (min e.received_at t)
]

-- There is no oldest one where the source has 0.0.
pub record BacklogMetrics : Type 0 where
  pub pending : ℕ
  pub owned_pending : ℕ
  pub owned_oldest : Option ℕ

unfoldable pub backlog_metrics : Context → Store → BacklogMetrics
unfolding pending_items receivers owns_pending notification_route_rules
backlog_metrics c s =
    let items = pending_items s.outbox s in
    let owned =
      keep (owns_pending c (notification_route_rules c.rt s) (receivers c.now s) s) items in
    record {
      pending = length items;
      owned_pending = length owned;
      owned_oldest = earliest_received owned;
    }
