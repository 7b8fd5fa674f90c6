-- ===== src/Application/Store.antt =====
-- A node's database as the lists of its rows.
use alert_hub.Prelude.{
  map, or_else, is_some, nonempty, ℕ, ◌+◌, max, Bool, false, Option, none, some, List, [], ◌∷◌,
  Text, ◌==◌, text_eq, find, if◌then◌else◌,
}
use alert_hub.Runtime.{Fields, Runtime}
use alert_hub.Application.Rows.{
  ClusterEvent, Incident, IncidentEvent, OutboxItem, Source, HeartbeatState, Node, User,
  AuthSession, ServiceToken, NotificationChannel, NotificationRoute, PushSubscription, Delivery,
  AuditLog, PrometheusDatasource, ApplicationSetting,
}

-- What an operation takes from its surroundings: the runtime, the settings' node id, one reading of
-- `utc_now()`, and the ids that `new_id()` returns one after the other.
pub record Context : Type 0 where
  pub rt : Runtime
  pub node_id : Text
  pub now : ℕ
  pub mint : ℕ → Text

-- A node's database. The rows with an id of their own that are read by it are tables; the others are
-- lists, the newest first.
pub record Store : Type 0 where
  pub cluster_events : List ClusterEvent
  pub incidents : List Incident
  pub incident_events : List IncidentEvent
  pub outbox : List OutboxItem
  pub sources : List Source
  pub heartbeats : List HeartbeatState
  pub nodes : List Node
  pub users : List User
  pub sessions : List AuthSession
  pub service_tokens : List ServiceToken
  pub channels : List NotificationChannel
  pub routes : List NotificationRoute
  pub subscriptions : List PushSubscription
  pub deliveries : List Delivery
  pub audit_logs : List AuditLog
  pub datasources : List PrometheusDatasource
  pub settings : List ApplicationSetting
  pub minted : ℕ

abbrev pub user_ids : Store → List Text
user_ids s = map (λ (u : User). u.id) s.users

abbrev pub has_id : Text → Incident → Bool
has_id i incident = i == incident.id

-- `db.get(Incident, id)`
abbrev pub get_incident : Text → Store → Option Incident
get_incident i s = find (has_id i) s.incidents

abbrev pub has_fingerprint : Text → Text → Incident → Bool
has_fingerprint source_id fingerprint incident =
    if source_id == incident.source_id then fingerprint == incident.fingerprint else false

-- The incident of a source with a fingerprint.
abbrev pub find_incident : Text → Text → Store → Option Incident
find_incident source_id fingerprint s = find (has_fingerprint source_id fingerprint) s.incidents

abbrev pub has_key : Text → IncidentEvent → Bool
has_key k e = k == e.event_key

-- The timeline event with a key.
abbrev pub find_event : Text → Store → Option IncidentEvent
find_event k s = find (has_key k) s.incident_events

-- The row of the incident after its object was changed.
unfoldable pub put_incident : Incident → List Incident → List Incident
put_incident i [] = []
put_incident i (j ∷ js) = if i.id == j.id then i ∷ js else j ∷ put_incident i js

abbrev pub of_origin : Text → ClusterEvent → Bool
of_origin node_id e = node_id == e.origin_node_id

-- `func.max(ClusterEvent.origin_seq)` of one origin; 0 where it has none.
unfoldable pub max_seq : Text → List ClusterEvent → ℕ
max_seq node_id [] = 0
max_seq node_id (e ∷ es) =
    let rest = max_seq node_id es in if of_origin node_id e then max e.origin_seq rest else rest

unfoldable pub next_origin_seq : Text → Store → ℕ
unfolding max_seq
next_origin_seq node_id s = max_seq node_id s.cluster_events + 1

-- An empty id is none.
abbrev pub given_id : Option Text → Option Text
given_id none = none
given_id (some i) = if nonempty i then some i else none

-- `append_cluster_event`, with the id that was given or a new one.
unfoldable pub append_cluster_event :
    Context → Text → Text → Text → Fields → ℕ → Option Text → Store → Store × ClusterEvent
append_cluster_event c entity_type entity_id operation payload occurred_at event_id s =
    let e : ClusterEvent = record {
      event_id = or_else (given_id event_id) (c.mint s.minted);
      origin_node_id = c.node_id;
      origin_seq = next_origin_seq c.node_id s;
      entity_type = entity_type;
      entity_id = entity_id;
      operation = operation;
      occurred_at = occurred_at;
      payload = payload;
    } in
    (
      record s {
        cluster_events = e ∷ s.cluster_events;
        minted = if is_some (given_id event_id) then s.minted else s.minted + 1;
      },
      e,
    )
