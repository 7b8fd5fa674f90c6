-- ===== src/Application/Sync/Sources.antt =====
-- Sources: `_project_source`.
use alert_hub.Prelude.{
  ℕ, Bool, true, not, ◌&&◌, ◌||◌, Option, none, some, List, [], ◌∷◌, Text, text_eq, ◌==◌, codes,
  take, keep, nonempty, Result, ok, raise, ◌>>=◌, if◌then◌else◌,
}
use alert_hub.Prelude.Table.{save}
use alert_hub.Runtime.{
  Value, Fields, Runtime, get, has, set, flag, truthy, str_or_empty, py_str, dict_or_empty,
  text_array, text_values,
}
use alert_hub.Runtime.Value.{array}
use alert_hub.Runtime.Values.{nil}
use alert_hub.Infrastructure.Cidrs.{normalize_cidrs}
use alert_hub.Application.Rows.{ClusterEvent, Source}
use alert_hub.Application.Store.{Context, Store}
use alert_hub.Application.Heartbeats.Observe.{ensure_state, get_source, heartbeat_kind}
use alert_hub.Application.Sync.History.{
  is_tombstone, latest_entity_event, optional_field, payload_datetime, payload_time, text_field,
}
use alert_hub.Application.Sync.Incidents.{project_incident_event, source_id_of}
use alert_hub.Application.Sync.Replay.{of_type}

abbrev pub allowed_or_none : Fields → Result (List Text) → Option Fields
allowed_or_none config (raise e) = none
allowed_or_none config (ok cidrs) = some (set (codes "allowed_cidrs") (text_array cidrs) config)

abbrev pub with_cidrs : Runtime → Fields → Value → Option Fields
with_cidrs rt config (array vs) = allowed_or_none config (normalize_cidrs rt vs)
with_cidrs rt config _ = none

-- The configuration with its networks normalized; `none` where they are no list of networks.
unfoldable pub source_config : Runtime → Fields → Option Fields
unfolding set normalize_cidrs text_values
source_config rt payload =
    let config = dict_or_empty (get (codes "config") payload) in
    with_cidrs rt config
      (if has (codes "allowed_cidrs") config then get (codes "allowed_cidrs") config else array nil)

-- The deletion time of a row that a tombstone, or a time of deletion, deletes.
abbrev pub deletion_time : Runtime → ClusterEvent → Result (Option ℕ)
deletion_time rt e =
    if is_tombstone e || truthy (get (codes "deleted_at") e.payload)
    then payload_datetime rt (codes "deleted_at") (some e.occurred_at) e.payload
    else ok none

abbrev pub is_enabled : ClusterEvent → Bool
is_enabled e = flag (codes "enabled") true e.payload && not (is_tombstone e)

abbrev pub source_or_new : Runtime → Text → ClusterEvent → ℕ → Option Source → Source
source_or_new rt entity_id e created_at (some x) = x
source_or_new rt entity_id e created_at none = record {
  id = entity_id;
  name = text_field rt 255 (codes "name") entity_id e.payload;
  kind = [];
  enabled = true;
  region = none;
  config = dict_or_empty (array nil);
  token_hash = [];
  created_at = created_at;
  updated_at = created_at;
  deleted_at = none;
}

unfoldable pub source_row :
    Runtime → Text → ClusterEvent → Text → Text → Fields → Option Source → Result Source
unfolding payload_datetime py_str
source_row rt entity_id e kind token_hash config existing = do
  created_at ← payload_time rt (codes "created_at") e
  updated_at ← payload_time rt (codes "updated_at") e
  deleted_at ← deletion_time rt e
  let x = source_or_new rt entity_id e created_at existing
  ok (record x {
    name = text_field rt 255 (codes "name") x.name e.payload;
    kind = take 32 kind;
    enabled = is_enabled e;
    region = optional_field rt 128 (codes "region") e.payload;
    config = config;
    token_hash = token_hash;
    updated_at = updated_at;
    deleted_at = deleted_at;
  })

abbrev pub save_source : Source → Store → Store
save_source x s = record s { sources = save (λ (y : Source). y.id) x s.sources }

-- A heartbeat source has a state from then on.
abbrev pub put_source : Source → Store → Store
put_source x s =
    if x.kind == heartbeat_kind then (ensure_state x (save_source x s)).0 else save_source x s

unfoldable pub project_incidents : Context → List ClusterEvent → Store → Result Store
unfolding project_incident_event
project_incidents c [] s = ok s
project_incidents c (e ∷ es) s = project_incident_event c e s >>= λ s'. project_incidents c es s'

abbrev pub incidents_of_source : Runtime → Text → Store → List ClusterEvent
incidents_of_source rt entity_id s =
    keep (λ (e : ClusterEvent). source_id_of rt e == entity_id)
      (keep (of_type (codes "incident")) s.cluster_events)

abbrev pub project_configured :
    Context → Text → ClusterEvent → Text → Text → Option Fields → Store → Result Store
project_configured c entity_id e kind token_hash none s = ok s
project_configured c entity_id e kind token_hash (some config) s =
    source_row c.rt entity_id e kind token_hash config (get_source entity_id s) >>= λ x.
    project_incidents c (incidents_of_source c.rt entity_id (put_source x s)) (put_source x s)

abbrev pub project_source_event : Context → Text → Option ClusterEvent → Store → Result Store
project_source_event c entity_id none s = ok s
project_source_event c entity_id (some e) s =
    let kind = str_or_empty c.rt (get (codes "kind") e.payload) in
    let token_hash = str_or_empty c.rt (get (codes "token_hash") e.payload) in
    if nonempty kind && nonempty token_hash
    then project_configured c entity_id e kind token_hash (source_config c.rt e.payload) s
    else ok s

unfoldable pub project_source : Context → Text → Store → Result Store
unfolding source_row project_incidents source_config latest_entity_event str_or_empty save
    ensure_state
project_source c entity_id s =
    project_source_event c entity_id (latest_entity_event (codes "source") entity_id s) s
