-- ===== src/Application/Sync/Channels.antt =====
-- `_project_channel`.
use alert_hub.Prelude.{
  ℕ, true, Option, none, some, List, Text, text_eq, nat_eq, codes, Result, ok, ◌>>=◌,
}
use alert_hub.Prelude.Table.{save}
use alert_hub.Runtime.{Runtime, get, truthy, py_str, dict_or_empty}
use alert_hub.Runtime.Fields.{end}
use alert_hub.Application.Rows.{ClusterEvent, NotificationChannel}
use alert_hub.Application.Store.{Context, Store}
use alert_hub.Application.Notifications.Deliveries.{channel_of}
use alert_hub.Application.Sync.History.{
  decode_blob, latest_entity_event, payload_datetime, payload_time, text_field,
}
use alert_hub.Application.Sync.Replay.{replay_delivery_receipts}
use alert_hub.Application.Sync.Sources.{deletion_time, is_enabled}

abbrev pub save_channel : NotificationChannel → Store → Store
save_channel x s = record s { channels = save (λ (y : NotificationChannel). y.id) x s.channels }

abbrev pub channel_or_new :
    Runtime → Text → ClusterEvent → List ℕ → ℕ → Option NotificationChannel → NotificationChannel
channel_or_new rt entity_id e config created_at (some x) = x
channel_or_new rt entity_id e config created_at none = record {
  id = entity_id;
  name = text_field rt 255 (codes "name") entity_id e.payload;
  kind = text_field rt 32 (codes "kind") (codes "generic_webhook") e.payload;
  enabled = true;
  encrypted_config = config;
  eligible_nodes_or_regions = end;
  created_at = created_at;
  deleted_at = none;
}

unfoldable pub channel_row :
    Runtime → Text → ClusterEvent → List ℕ → Option NotificationChannel → Result NotificationChannel
unfolding payload_datetime py_str truthy
channel_row rt entity_id e config existing = do
  created_at ← payload_time rt (codes "created_at") e
  updated_at ← payload_time rt (codes "updated_at") e
  deleted_at ← deletion_time rt e
  let x = channel_or_new rt entity_id e config created_at existing
  ok (record x {
    name = text_field rt 255 (codes "name") x.name e.payload;
    kind = text_field rt 32 (codes "kind") x.kind e.payload;
    enabled = is_enabled e;
    encrypted_config = config;
    eligible_nodes_or_regions = dict_or_empty (get (codes "eligible_nodes_or_regions") e.payload);
    deleted_at = deleted_at;
  })

abbrev pub project_channel_event :
    Context → Text → ClusterEvent → Option (List ℕ) → Store → Result Store
project_channel_event c entity_id e none s = ok s
project_channel_event c entity_id e (some config) s =
    channel_row c.rt entity_id e config (channel_of entity_id s) >>= λ x.
    replay_delivery_receipts c
      (record {
        event_id = none;
        event_key = none;
        channel_id = some entity_id;
        subscription_id = none;
      })
      (save_channel x s)

abbrev pub config_of : Runtime → ClusterEvent → Option (List ℕ)
config_of rt e = decode_blob rt (codes "encrypted_config") e.payload

unfoldable pub project_channel : Context → Text → Store → Result Store
unfolding channel_row latest_entity_event decode_blob replay_delivery_receipts save
project_channel c entity_id s =
    elim (latest_entity_event (codes "notification_channel") entity_id s) [
      | none ↦ ok s
      | some e ↦ project_channel_event c entity_id e (config_of c.rt e) s
    ]
