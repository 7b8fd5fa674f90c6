-- ===== src/Application/Rows.antt =====
-- The rows of backend/alert_hub/infrastructure/db/models.py, as far as the modelled operations read
-- and write them. The columns `updated_at` are left out.
use alert_hub.Prelude.{ℕ, Bool, Option, List, Text}
use alert_hub.Prelude.Int.{ℤ}
use alert_hub.Runtime.{Fields}
use alert_hub.Domain.Events.Defs.{EventType, IncidentStatus}

pub record Node : Type 0 where
  pub id : Text
  pub name : Text
  pub region : Text
  pub public_api_url : Option Text
  pub private_peer_url : Option Text
  pub enabled_roles : List Text
  pub created_at : ℕ
  pub last_seen_at : Option ℕ
  pub software_version : Text
  pub api_down_alert_enabled : Bool

pub record User : Type 0 where
  pub id : Text
  pub username : Text
  pub password_hash : Text
  pub is_admin : Bool
  pub created_at : ℕ
  pub disabled_at : Option ℕ

pub record AuthSession : Type 0 where
  pub id : Text
  pub user_id : Text
  pub refresh_token_hash : Text
  pub device_name : Text
  pub created_at : ℕ
  pub last_used_at : ℕ
  pub expires_at : ℕ
  pub absolute_expires_at : ℕ
  pub revoked_at : Option ℕ

pub record ServiceToken : Type 0 where
  pub id : Text
  pub user_id : Text
  pub name : Text
  pub token_hash : Text
  pub scopes : List Text
  pub created_at : ℕ
  pub expires_at : ℕ
  pub revoked_at : Option ℕ

pub record ClusterEvent : Type 0 where
  pub event_id : Text
  pub origin_node_id : Text
  pub origin_seq : ℕ
  pub entity_type : Text
  pub entity_id : Text
  pub operation : Text
  pub occurred_at : ℕ
  pub payload : Fields

pub record Incident : Type 0 where
  pub id : Text
  pub source_id : Text
  pub fingerprint : Text
  pub title : Text
  pub description : Text
  pub severity : Text
  pub status : IncidentStatus
  pub labels : Fields
  pub annotations : Fields
  pub starts_at : ℕ
  pub last_event_at : ℕ
  pub resolved_at : Option ℕ
  pub acknowledged_at : Option ℕ
  pub acknowledged_by : Option Text

pub record IncidentEvent : Type 0 where
  pub id : Text
  pub origin_node_id : Text
  pub origin_seq : ℕ
  pub event_key : Text
  pub incident_id : Text
  pub event_type : EventType
  pub occurred_at : ℕ
  pub received_at : ℕ
  pub payload : Fields

-- The payload of an item is its event and its incident; the topic is always notification_event.
pub record OutboxItem : Type 0 where
  pub id : Text
  pub event_id : Text
  pub incident_id : Text
  pub available_at : ℕ
  pub attempt : ℕ
  pub locked_at : Option ℕ
  pub completed_at : Option ℕ
  pub last_error : Option Text

pub record Source : Type 0 where
  pub id : Text
  pub name : Text
  pub kind : Text
  pub enabled : Bool
  pub region : Option Text
  pub config : Fields
  pub token_hash : Text
  pub created_at : ℕ
  pub updated_at : ℕ
  pub deleted_at : Option ℕ

pub record HeartbeatState : Type 0 where
  pub source_id : Text
  pub last_received_at : ℕ
  pub missed : Bool
  pub last_event_key : Option Text

-- The configuration is encrypted bytes.
pub record NotificationChannel : Type 0 where
  pub id : Text
  pub name : Text
  pub kind : Text
  pub enabled : Bool
  pub encrypted_config : List ℕ
  pub eligible_nodes_or_regions : Fields
  pub created_at : ℕ
  pub deleted_at : Option ℕ

pub record NotificationRoute : Type 0 where
  pub id : Text
  pub name : Text
  pub enabled : Bool
  pub priority : ℤ
  pub source_filter : List Text
  pub severity_filter : List Text
  pub label_matchers : List Fields
  pub channel_ids : List Text
  pub continue_matching : Bool

pub record PushSubscription : Type 0 where
  pub id : Text
  pub user_id : Text
  pub session_id : Option Text
  pub device_name : Text
  pub endpoint : List ℕ
  pub p256dh : List ℕ
  pub auth : List ℕ
  pub user_agent : Option Text
  pub created_at : ℕ
  pub last_success_at : Option ℕ
  pub disabled_at : Option ℕ

pub record Delivery : Type 0 where
  pub id : Text
  pub event_id : Text
  pub channel_id : Text
  pub subscription_id : Option Text
  pub owner_node_id : Text
  pub attempt : ℕ
  pub status : Text
  pub provider_status : Option Text
  pub error_code : Option Text
  pub created_at : ℕ
  pub finished_at : Option ℕ

pub record AuditLog : Type 0 where
  pub id : Text
  pub occurred_at : ℕ
  pub node_id : Text
  pub action : Text
  pub entity_type : Text
  pub details : Fields

pub record PrometheusDatasource : Type 0 where
  pub id : Text
  pub name : Text
  pub url : Text
  pub node_id : Option Text
  pub region : Option Text
  pub reachability_label_mode : Text
  pub enabled : Bool
  pub encrypted_credentials : Option (List ℕ)
  pub created_at : ℕ

pub record ApplicationSetting : Type 0 where
  pub id : Text
  pub grafana_url : Option Text
  pub key_job_globs : List Text
  pub alert_hub_job_globs : List Text
  pub created_at : ℕ
