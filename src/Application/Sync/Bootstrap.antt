-- ===== src/Application/Sync/Bootstrap.antt =====
-- `_record_bootstrap_conflict`.
use alert_hub.Prelude.{
  ℕ, Bool, true, ◌&&◌, Option, none, some, is_some, List, [], ◌∷◌, ◌++◌, Text, text_eq, nat_eq,
  ◌==◌, codes, map, length, or_else, ltb, if◌then◌else◌,
}
use alert_hub.Prelude.Order.{text_order}
use alert_hub.Prelude.Sort.{sort_by}
use alert_hub.Prelude.Table.{row_of, save}
use alert_hub.Runtime.{Runtime, text_array}
use alert_hub.Runtime.Value.{boolean}
use alert_hub.Runtime.Fields.{end, field}
use alert_hub.Domain.Checks.Aggregate.{maximum, sorted_set}
use alert_hub.Application.Rows.{ClusterEvent, AuditLog, AuthSession, ServiceToken, User}
use alert_hub.Application.Store.{Context, Store}
use alert_hub.Application.Sync.Registration.{user_of}

abbrev pub save_user : User → Store → Store
save_user u s = record s { users = save (λ (v : User). v.id) u s.users }

abbrev pub save_session : AuthSession → Store → Store
save_session a s = record s { sessions = save (λ (b : AuthSession). b.id) a s.sessions }

abbrev pub save_token : ServiceToken → Store → Store
save_token t s = record s { service_tokens = save (λ (u : ServiceToken). u.id) t s.service_tokens }

abbrev pub user_ids_of : List ClusterEvent → List Text
user_ids_of events = sorted_set (map (λ (e : ClusterEvent). e.entity_id) events)

abbrev pub sorted_event_ids : List ClusterEvent → List Text
sorted_event_ids events =
    sort_by text_order (λ x. x) (map (λ (e : ClusterEvent). e.event_id) events)

-- `":".join(...)`
unfoldable pub join_colons : List Text → Text
join_colons [] = []
join_colons (a ∷ []) = a
join_colons (a ∷ b ∷ rest) = let later = join_colons (b ∷ rest) in a ++ (codes ":" ++ later)

unfoldable pub conflict_log : Context → List ClusterEvent → Text → ℕ → AuditLog
unfolding sorted_set sort_by
conflict_log c events conflict_id conflict_at = record {
  id = conflict_id;
  occurred_at = conflict_at;
  node_id = c.node_id;
  action = codes "bootstrap_conflict_detected";
  entity_type = codes "user";
  details = field (codes "user_ids") (text_array (user_ids_of events)) (
      field (codes "event_ids") (text_array (sorted_event_ids events))
        (field (codes "requires_manual_resolution") (boolean true) end));
}

-- A user that is there and not disabled yet is.
abbrev pub disable_found : ℕ → Option User → Store → Store
disable_found t none s = s
disable_found t (some u) s =
    if is_some u.disabled_at then s else save_user (record u { disabled_at = some t }) s

unfoldable pub disable_users : ℕ → List Text → Store → Store
unfolding save
disable_users t [] s = s
disable_users t (i ∷ rest) s = disable_users t rest (disable_found t (user_of i s) s)

abbrev pub add_log : AuditLog → Store → Store
add_log a s =
    if is_some (row_of (λ (b : AuditLog). b.id) a.id s.audit_logs)
    then s
    else record s { audit_logs = a ∷ s.audit_logs }

unfoldable pub conflict_id_of : Runtime → List ClusterEvent → Text
unfolding sort_by join_colons
conflict_id_of rt events =
    rt.uuid5 (codes "alert-hub:bootstrap-conflict:" ++ join_colons (sorted_event_ids events))

unfoldable pub record_bootstrap_conflict : Context → List ClusterEvent → Store → Store
unfolding sorted_set conflict_log disable_users conflict_id_of
record_bootstrap_conflict c events s =
    if ltb (length (user_ids_of events)) 2
    then s
    else (let conflict_at =
          or_else (maximum (map (λ (e : ClusterEvent). e.occurred_at) events)) 0 in
        disable_users conflict_at (user_ids_of events)
          (add_log (conflict_log c events (conflict_id_of c.rt events) conflict_at) s))

abbrev pub is_bootstrap : ClusterEvent → Bool
is_bootstrap e = e.entity_type == codes "user" && e.operation == codes "bootstrap"
