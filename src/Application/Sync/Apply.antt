-- ===== src/Application/Sync/Apply.antt =====
-- `cluster_cursor`, `IncomingClusterEvent`, `_project_event` and `apply_cluster_events`.
use alert_hub.Prelude.{
  ℕ, ◌+◌, Bool, ◌&&◌, ◌||◌, List, [], ◌∷◌, Text, text_eq, nat_eq, ◌==◌, codes, any, map, length,
  Result, ok, ◌>>=◌, if◌then◌else◌,
}
use alert_hub.Prelude.Order.{Order, nat_order, pair_order}
use alert_hub.Prelude.Dict.{Dict}
use alert_hub.Prelude.Sets.{dedup}
use alert_hub.Prelude.Sort.{sort_by}
use alert_hub.Runtime.{DateTime, Fields}
use alert_hub.Domain.Time.{to_utc}
use alert_hub.Domain.Events.Defs.{key_order}
use alert_hub.Application.Rows.{ClusterEvent}
use alert_hub.Application.Store.{Context, Store, max_seq}
use alert_hub.Application.Heartbeats.Observe.{project_heartbeat_observation}
use alert_hub.Application.Sync.History.{event_order, payload_time, payload_datetime}
use alert_hub.Application.Sync.Nodes.{project_node, project_node_api_alert_setting}
use alert_hub.Application.Sync.Tokens.{project_service_token}
use alert_hub.Application.Sync.Sessions.{project_session}
use alert_hub.Application.Sync.Accounts.{project_user}
use alert_hub.Application.Sync.Sources.{project_source}
use alert_hub.Application.Sync.Incidents.{project_incident_event}
use alert_hub.Application.Sync.Config.{project_application_setting, project_prometheus_datasource}
use alert_hub.Application.Sync.Channels.{project_channel}
use alert_hub.Application.Sync.Routes.{project_notification_route}
use alert_hub.Application.Sync.Push.{project_push_subscription}
use alert_hub.Application.Sync.Replay.{project_delivery_receipt}

-- Of each origin, the greatest number.
unfoldable pub cluster_cursor : Store → Dict Text ℕ
unfolding dedup max_seq
cluster_cursor s =
    map (λ origin. (origin, max_seq origin s.cluster_events))
      (dedup (map (λ (e : ClusterEvent). e.origin_node_id) s.cluster_events))

pub record IncomingClusterEvent : Type 0 where
  pub event_id : Text
  pub origin_node_id : Text
  pub origin_seq : ℕ
  pub entity_type : Text
  pub entity_id : Text
  pub operation : Text
  pub occurred_at : DateTime
  pub payload : Fields

-- An event that has the id, or the origin and the number.
abbrev pub is_same : IncomingClusterEvent → ClusterEvent → Bool
is_same i e =
    e.event_id == i.event_id
    || (e.origin_node_id == i.origin_node_id && e.origin_seq == i.origin_seq)

abbrev pub is_known : IncomingClusterEvent → Store → Bool
is_known i s = any (is_same i) s.cluster_events

abbrev pub stored : IncomingClusterEvent → ClusterEvent
stored i = record {
  event_id = i.event_id;
  origin_node_id = i.origin_node_id;
  origin_seq = i.origin_seq;
  entity_type = i.entity_type;
  entity_id = i.entity_id;
  operation = i.operation;
  occurred_at = to_utc i.occurred_at;
  payload = i.payload;
}

-- The loop that persists: the store, the events that are new, and the number of duplicates.
pub record Recorded : Type 0 where
  pub store : Store
  pub applied : List ClusterEvent
  pub duplicates : ℕ

abbrev pub add_cluster_event : ClusterEvent → Store → Store
add_cluster_event e s = record s { cluster_events = e ∷ s.cluster_events }

unfoldable pub record_events : List IncomingClusterEvent → Store → Recorded
record_events [] s = record { store = s; applied = []; duplicates = 0 }
record_events (i ∷ is) s =
    let rest = record_events is (if is_known i s then s else add_cluster_event (stored i) s) in
    if is_known i s
    then record rest { duplicates = 1 + rest.duplicates }
    else record rest { applied = stored i ∷ rest.applied }

abbrev pub project_observation : Context → ClusterEvent → Store → Result Store
project_observation c e s = payload_time c.rt (codes "received_at") e >>= λ observed_at.
    (project_heartbeat_observation c e.entity_id observed_at s >>= λ r. ok r.0)

unfoldable pub project_event : Context → ClusterEvent → Store → Result Store
unfolding payload_datetime
project_event c e s =
    if e.entity_type == codes "node"
    then project_node c e.entity_id s
    else if e.entity_type == codes "node_api_alert_setting"
    then ok (project_node_api_alert_setting e.entity_id s)
    else if e.entity_type == codes "user"
    then project_user c e.entity_id s
    else if e.entity_type == codes "session"
    then project_session c e.entity_id s
    else if e.entity_type == codes "service_token"
    then project_service_token c e.entity_id s
    else if e.entity_type == codes "source"
    then project_source c e.entity_id s
    else if e.entity_type == codes "incident"
    then project_incident_event c e s
    else if e.entity_type == codes "notification_channel"
    then project_channel c e.entity_id s
    else if e.entity_type == codes "notification_route"
    then project_notification_route c e.entity_id s
    else if e.entity_type == codes "prometheus_datasource"
    then project_prometheus_datasource c e.entity_id s
    else if e.entity_type == codes "application_setting"
    then project_application_setting c e.entity_id s
    else if e.entity_type == codes "push_subscription"
    then project_push_subscription c e.entity_id s
    else if e.entity_type == codes "delivery_receipt"
    then project_delivery_receipt c e s
    else if e.entity_type == codes "heartbeat_observation"
    then project_observation c e s
    else ok s

abbrev pub is_configuration : Text → Bool
is_configuration t =
    t == codes "session"
    || (t == codes "service_token"
        || (t == codes "notification_channel"
            || (t == codes "notification_route"
                || (t == codes "prometheus_datasource" || t == codes "application_setting"))))

unfoldable pub priority : Text → ℕ
priority t =
    if t == codes "node"
    then 0
    else if t == codes "node_api_alert_setting" || t == codes "user"
    then 1
    else if t == codes "source"
    then 2
    else if is_configuration t
    then 3
    else if t == codes "push_subscription"
    then 4
    else if t == codes "incident"
    then 5
    else if t == codes "heartbeat_observation"
    then 6
    else if t == codes "delivery_receipt"
    then 7
    else 10

abbrev pub projection_key : ClusterEvent → ℕ × (ℕ × Text)
projection_key e = (priority e.entity_type, event_order e)

abbrev pub projection_order : Order (ℕ × (ℕ × Text))
projection_order = pair_order nat_order key_order

unfoldable pub project_all : Context → List ClusterEvent → Store → Result Store
unfolding project_event
project_all c [] s = ok s
project_all c (e ∷ es) s = project_event c e s >>= λ s'. project_all c es s'

pub record ApplyResult : Type 0 where
  pub applied : ℕ
  pub duplicates : ℕ

unfoldable pub apply_cluster_events :
    Context → List IncomingClusterEvent → Store → Result (Store × ApplyResult)
unfolding record_events project_all sort_by priority
apply_cluster_events c incoming s =
    let r = record_events incoming s in
    project_all c (sort_by projection_order projection_key r.applied) r.store >>= λ s'.
    ok (s', record { applied = length r.applied; duplicates = r.duplicates })
