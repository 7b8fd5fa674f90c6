-- ===== src/Application/Sync/Tokens.antt =====
-- `_project_service_token` and `reproject_service_tokens`.
use alert_hub.Prelude.{
  ℕ, Bool, not, ◌&&◌, Option, none, some, is_some, List, [], ◌∷◌, Text, text_eq, nat_eq, ◌==◌,
  codes, take, keep, map, any, head?, length, nonempty, Result, ok, integrity_error, ◌>>=◌, ◌>>◌,
  raise_if, if◌then◌else◌,
}
use alert_hub.Prelude.Sets.{dedup}
use alert_hub.Prelude.Table.{save}
use alert_hub.Prelude.Texts.{strip}
use alert_hub.Runtime.{Value, Runtime, get, str_or_empty}
use alert_hub.Runtime.Value.{text, array}
use alert_hub.Runtime.Values.{nil, cons}
use alert_hub.Application.Rows.{ClusterEvent, ServiceToken}
use alert_hub.Application.Store.{Context, Store}
use alert_hub.Application.Sync.History.{
  Merged, history, is_tombstone, merge, nothing_merged, payload_datetime,
}
use alert_hub.Application.Sync.Nodes.{same_value}
use alert_hub.Application.Sync.Registration.{user_of}
use alert_hub.Application.Sync.Replay.{of_type}
use alert_hub.Application.Sync.Bootstrap.{save_token}
use alert_hub.Application.Sync.Sessions.{project_session}

abbrev pub mcp_read : Value
mcp_read = array (cons (text (codes "mcp:read")) nil)

-- `UNIQUE (token_hash)`
abbrev pub token_is_taken : Text → Text → Store → Bool
token_is_taken entity_id hash s =
    any (λ (t : ServiceToken). t.token_hash == hash && not (t.id == entity_id)) s.service_tokens

-- The token once both of its times are there.
abbrev pub timed_token :
    Runtime → Text → Merged → Option ℕ → Option ℕ → Store → Result (Option ServiceToken)
timed_token rt entity_id m (some created_at) (some expires_at) s =
    raise_if (token_is_taken entity_id (str_or_empty rt (get (codes "token_hash") m.state)) s)
      integrity_error
    >> ok (
        some (record {
          id = entity_id;
          user_id = str_or_empty rt (get (codes "user_id") m.state);
          name = take 255 (strip (str_or_empty rt (get (codes "name") m.state)));
          token_hash = str_or_empty rt (get (codes "token_hash") m.state);
          scopes = codes "mcp:read" ∷ [];
          created_at = created_at;
          expires_at = expires_at;
          revoked_at = m.revoked_at;
        }))
timed_token rt entity_id m _ _ s = ok none

abbrev pub is_token : Runtime → Merged → Store → Bool
is_token rt m s =
    let user_id = str_or_empty rt (get (codes "user_id") m.state) in
    nonempty user_id
    && (is_some (user_of user_id s)
        && (nonempty (strip (str_or_empty rt (get (codes "name") m.state)))
            && (length (str_or_empty rt (get (codes "token_hash") m.state)) == 64
                && same_value (get (codes "scopes") m.state) mcp_read)))

unfoldable pub token_of_merged :
    Runtime → Text → Merged → ClusterEvent → Store → Result (Option ServiceToken)
unfolding str_or_empty strip same_value payload_datetime
token_of_merged rt entity_id m e s = do
  created_at ← payload_datetime rt (codes "created_at") (some e.occurred_at) m.state
  expires_at ← payload_datetime rt (codes "expires_at") none m.state
  if is_token rt m s then timed_token rt entity_id m created_at expires_at s else ok none

abbrev pub token_of_history :
    Runtime → Text → List ClusterEvent → Option ClusterEvent → Store → Result (Option ServiceToken)
token_of_history rt entity_id events none s = ok none
token_of_history rt entity_id events (some e) s =
    merge rt is_tombstone events nothing_merged >>= λ m. token_of_merged rt entity_id m e s

unfoldable pub token_row : Runtime → Text → Store → Result (Option ServiceToken)
unfolding token_of_merged merge history
token_row rt entity_id s =
    let events = history (codes "service_token") entity_id s in
    token_of_history rt entity_id events (head? events) s

abbrev pub put_token : Option ServiceToken → Store → Store
put_token none s = s
put_token (some t) s = save_token t s

unfoldable pub project_service_token : Context → Text → Store → Result Store
unfolding token_row save
project_service_token c entity_id s = token_row c.rt entity_id s >>= λ t. ok (put_token t s)

unfoldable pub project_sessions : Context → List ClusterEvent → Store → Result Store
unfolding project_session
project_sessions c [] s = ok s
project_sessions c (e ∷ es) s = project_session c e.entity_id s >>= λ s'. project_sessions c es s'

unfoldable pub project_tokens : Context → List Text → Store → Result Store
unfolding project_service_token
project_tokens c [] s = ok s
project_tokens c (i ∷ is) s = project_service_token c i s >>= λ s'. project_tokens c is s'

unfoldable pub reproject_service_tokens : Context → Store → Result Store
unfolding project_tokens dedup
reproject_service_tokens c s =
    project_tokens c
      (dedup (
        map (λ (e : ClusterEvent). e.entity_id)
          (keep (of_type (codes "service_token")) s.cluster_events)))
      s
