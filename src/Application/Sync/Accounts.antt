-- ===== src/Application/Sync/Accounts.antt =====
-- `_project_user` and `_replay_user_dependencies`.
use alert_hub.Prelude.{
  Bool, false, not, ◌&&◌, Option, none, some, List, Text, text_eq, nat_eq, ◌==◌, codes, take, keep,
  map, any, length, nonempty, ltb, Result, ok, integrity_error, ◌>>=◌, ◌>>◌, raise_if,
  if◌then◌else◌,
}
use alert_hub.Prelude.Table.{save}
use alert_hub.Prelude.Texts.{strip}
use alert_hub.Runtime.{Runtime, get, flag, truthy, str_or_empty}
use alert_hub.Domain.Checks.Aggregate.{sorted_set}
use alert_hub.Application.Rows.{ClusterEvent, User}
use alert_hub.Application.Store.{Context, Store}
use alert_hub.Application.Sync.History.{latest_entity_event, payload_datetime, payload_time}
use alert_hub.Application.Sync.Push.{project_push_all}
use alert_hub.Application.Sync.Registration.{user_of}
use alert_hub.Application.Sync.Bootstrap.{
  save_user, user_ids_of, record_bootstrap_conflict, is_bootstrap,
}
use alert_hub.Application.Sync.Sessions.{events_of}
use alert_hub.Application.Sync.Tokens.{project_sessions, project_tokens}

-- What was waiting for the user.
unfoldable pub replay_user_dependencies : Context → Text → Store → Result Store
unfolding events_of project_sessions project_tokens project_push_all
replay_user_dependencies c user_id s = do
  s1 ← project_sessions c (events_of c.rt (codes "session") (codes "user_id") user_id s) s
  s2 ←
      project_tokens c
        (map (λ (e : ClusterEvent). e.entity_id)
          (events_of c.rt (codes "service_token") (codes "user_id") user_id s1))
        s1
  project_push_all c (events_of c.rt (codes "push_subscription") (codes "user_id") user_id s2) s2

-- A user with the name, where it is another one.
abbrev pub name_is_taken : Text → Text → Store → Bool
name_is_taken entity_id username s =
    any (λ (u : User). u.username == username && not (u.id == entity_id)) s.users

-- The user after their latest event; `none` where another one has the name.
unfoldable pub user_row :
    Runtime → Text → ClusterEvent → Text → Text → Option User → Store → Result (Option User)
unfolding payload_datetime truthy
user_row rt entity_id e username password_hash none s =
    if name_is_taken entity_id username s
    then ok none
    else (payload_time rt (codes "created_at") e >>= λ created_at.
        (raise_if (name_is_taken entity_id (take 255 username) s) integrity_error
          >> ok (
              some (record {
                id = entity_id;
                username = take 255 username;
                password_hash = password_hash;
                is_admin = flag (codes "is_admin") false e.payload;
                created_at = created_at;
                disabled_at = none;
              }))))
user_row rt entity_id e username password_hash (some u) s =
    payload_datetime rt (codes "disabled_at") none e.payload >>= λ disabled_at.
    (raise_if (name_is_taken entity_id (take 255 username) s) integrity_error
      >> ok (
          some (record u {
            username = take 255 username;
            password_hash = password_hash;
            is_admin = flag (codes "is_admin") u.is_admin e.payload;
            disabled_at = disabled_at;
          })))

abbrev pub put_user : Context → Text → List ClusterEvent → Option User → Store → Result Store
put_user c entity_id bootstraps none s = ok (record_bootstrap_conflict c bootstraps s)
put_user c entity_id bootstraps (some u) s = replay_user_dependencies c entity_id (save_user u s)

abbrev pub project_user_event :
    Context → Text → List ClusterEvent → Option ClusterEvent → Store → Result Store
project_user_event c entity_id bootstraps none s = ok s
project_user_event c entity_id bootstraps (some e) s =
    let username = strip (str_or_empty c.rt (get (codes "username") e.payload)) in
    let password_hash = str_or_empty c.rt (get (codes "password_hash") e.payload) in
    if nonempty username && nonempty password_hash
    then (user_row c.rt entity_id e username password_hash (user_of entity_id s) s >>= λ u.
        put_user c entity_id bootstraps u s)
    else ok s

unfoldable pub project_user : Context → Text → Store → Result Store
unfolding record_bootstrap_conflict user_row replay_user_dependencies latest_entity_event strip
    str_or_empty sorted_set save
project_user c entity_id s =
    let bootstraps = keep is_bootstrap s.cluster_events in
    let checked = record_bootstrap_conflict c bootstraps s in
    if ltb 1 (length (user_ids_of bootstraps))
    then ok checked
    else project_user_event c entity_id bootstraps
        (latest_entity_event (codes "user") entity_id checked) checked
