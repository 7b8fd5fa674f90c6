-- ===== src/Application/Notifications/Prepare.antt =====
-- `_prepare_targets` of the notification worker.
use alert_hub.Prelude.{
  Bool, ◌&&◌, Option, none, some, is_some, is_none, List, [], ◌∷◌, ◌++◌, Text, text_eq, nat_eq,
  ◌==◌, codes, map, if◌then◌else◌,
}
use alert_hub.Domain.Routing.Rules.{select_channel_ids}
use alert_hub.Application.Rows.{
  Incident, IncidentEvent, NotificationChannel, OutboxItem, PushSubscription,
}
use alert_hub.Application.Store.{Context, Store, get_incident}
use alert_hub.Application.Outbox.Defs.{should_deliver_notification}
use alert_hub.Application.PushSessions.{eligible_push_subscriptions}
use alert_hub.Application.Notifications.Deliveries.{channel_of, get_event}
use alert_hub.Application.Notifications.Routes.{notification_route_rules}
use alert_hub.Application.Notifications.Queue.{complete_item, get_item}
use alert_hub.Application.Notifications.Ledger.{TargetDescriptor}

-- A channel that can be sent to.
abbrev pub is_open : NotificationChannel → Bool
is_open x = x.enabled && is_none x.deleted_at

abbrev pub to_subscriptions : Text → List PushSubscription → List TargetDescriptor
to_subscriptions channel_id ps =
    map (λ (p : PushSubscription). record { channel_id = channel_id; subscription_id = some p.id })
      ps

abbrev pub targets_of_channel : List PushSubscription → NotificationChannel → List TargetDescriptor
targets_of_channel subscriptions x =
    if x.kind == codes "web_push"
    then to_subscriptions x.id subscriptions
    else record { channel_id = x.id; subscription_id = none } ∷ []

abbrev pub targets_of_found :
    List PushSubscription → Option NotificationChannel → List TargetDescriptor
targets_of_found subscriptions none = []
targets_of_found subscriptions (some x) =
    if is_open x then targets_of_channel subscriptions x else []

unfoldable pub targets_of : List PushSubscription → List Text → Store → List TargetDescriptor
targets_of subscriptions [] s = []
targets_of subscriptions (i ∷ is) s =
    targets_of_found subscriptions (channel_of i s) ++ targets_of subscriptions is s

-- The item is done with, or has an event with its targets.
pub data Prepared : Type 0 where
  nothing : Prepared
  targets : Text → List TargetDescriptor → Prepared

abbrev pub prepare_selected : Context → IncidentEvent → List Text → Store → Store × Prepared
prepare_selected c e [] s = (s, targets e.id [])
prepare_selected c e (i ∷ is) s =
    let eligible = eligible_push_subscriptions c c.now s in
    (eligible.0, targets e.id (targets_of eligible.1 (i ∷ is) s))

abbrev pub prepare_incident :
    Context → Text → IncidentEvent → Option Incident → Store → Store × Prepared
prepare_incident c item_id e none s =
    (complete_item item_id c.now (some (codes "incident_unavailable")) s, nothing)
prepare_incident c item_id e (some i) s =
    prepare_selected c e
      (select_channel_ids c.rt (notification_route_rules c.rt s) i.source_id i.severity i.labels) s

abbrev pub prepare_event : Context → Text → Option IncidentEvent → Store → Store × Prepared
prepare_event c item_id none s =
    (complete_item item_id c.now (some (codes "event_unavailable")) s, nothing)
prepare_event c item_id (some e) s =
    if should_deliver_notification e
    then prepare_incident c item_id e (get_incident e.incident_id s) s
    else (s, targets e.id [])

abbrev pub prepare_found : Context → Text → Option OutboxItem → Store → Store × Prepared
prepare_found c item_id none s = (s, nothing)
prepare_found c item_id (some o) s =
    if is_some o.completed_at
    then (s, nothing)
    else prepare_event c item_id (get_event o.event_id s) s

unfoldable pub prepare_targets : Context → Text → Store → Store × Prepared
unfolding complete_item notification_route_rules eligible_push_subscriptions targets_of
prepare_targets c item_id s = prepare_found c item_id (get_item item_id s) s
