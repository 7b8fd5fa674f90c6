-- ===== src/Application/Sync/Sessions.antt =====
-- `_project_session`, and the events that name an owner.
use alert_hub.Prelude.{
  ℕ, Bool, not, ◌&&◌, ◌||◌, Option, none, some, is_some, List, [], Text, text_eq, nat_eq, ◌==◌,
  codes, keep, any, last?, nonempty, Result, ok, integrity_error, ◌>>=◌, ◌>>◌, raise_if,
  if◌then◌else◌,
}
use alert_hub.Prelude.Table.{save}
use alert_hub.Runtime.{Runtime, get, py_str, str_or_empty}
use alert_hub.Application.Rows.{ClusterEvent, AuthSession}
use alert_hub.Application.Store.{Context, Store}
use alert_hub.Application.Sync.History.{
  Merged, history, is_tombstone, merge, nothing_merged, payload_datetime, text_field,
}
use alert_hub.Application.Sync.Push.{project_push_all}
use alert_hub.Application.Sync.Registration.{session_of, user_of}
use alert_hub.Application.Sync.Replay.{of_type}
use alert_hub.Application.Sync.Bootstrap.{save_session}

-- The events of a type whose payload names an owner.
unfoldable pub events_of : Runtime → Text → Text → Text → Store → List ClusterEvent
unfolding str_or_empty
events_of rt entity_type name owner s =
    keep (λ (e : ClusterEvent). str_or_empty rt (get name e.payload) == owner)
      (keep (of_type entity_type) s.cluster_events)

abbrev pub is_revocation : ClusterEvent → Bool
is_revocation e = e.operation == codes "revoke" || is_tombstone e

abbrev pub session_or_new : Text → ℕ → Option AuthSession → AuthSession
session_or_new entity_id t (some a) = a
session_or_new entity_id t none = record {
  id = entity_id;
  user_id = [];
  refresh_token_hash = [];
  device_name = codes "Unknown device";
  created_at = t;
  last_used_at = t;
  expires_at = t;
  absolute_expires_at = t;
  revoked_at = none;
}

-- `UNIQUE (refresh_token_hash)`
abbrev pub refresh_is_taken : Text → Text → Store → Bool
refresh_is_taken entity_id hash s =
    any (λ (a : AuthSession). a.refresh_token_hash == hash && not (a.id == entity_id)) s.sessions

-- The session once each of its times is there, where no other has its token.
abbrev pub timed_session :
    Runtime
    → Text
    → Merged
    → Option ℕ
    → Option ℕ
    → Option ℕ
    → Option ℕ
    → Bool
    → Option AuthSession
    → Result (Option AuthSession)
timed_session rt entity_id m (some created_at) (some last_used_at) (some expires_at) (some absolute)
      taken existing =
    raise_if taken integrity_error
    >> ok (
        some (record (session_or_new entity_id created_at existing) {
          user_id = str_or_empty rt (get (codes "user_id") m.state);
          refresh_token_hash = str_or_empty rt (get (codes "refresh_token_hash") m.state);
          device_name = text_field rt 255 (codes "device_name") (codes "Unknown device") m.state;
          created_at = created_at;
          last_used_at = last_used_at;
          expires_at = expires_at;
          absolute_expires_at = absolute;
          revoked_at = m.revoked_at;
        }))
timed_session rt entity_id m _ _ _ _ taken existing = ok none

-- Each time is by default the one before it.
unfoldable pub session_with_times :
    Runtime → Text → Merged → ClusterEvent → Store → Result (Option AuthSession)
unfolding str_or_empty py_str payload_datetime
session_with_times rt entity_id m e s = do
  created_at ← payload_datetime rt (codes "created_at") (some e.occurred_at) m.state
  last_used_at ← payload_datetime rt (codes "last_used_at") created_at m.state
  expires_at ← payload_datetime rt (codes "expires_at") last_used_at m.state
  absolute ← payload_datetime rt (codes "absolute_expires_at") expires_at m.state
  timed_session rt entity_id m created_at last_used_at expires_at absolute
      (refresh_is_taken entity_id (str_or_empty rt (get (codes "refresh_token_hash") m.state)) s)
      (session_of entity_id s)

-- The merged history names a user that is there, and a token.
abbrev pub is_session : Runtime → Merged → Store → Bool
is_session rt m s =
    let user_id = str_or_empty rt (get (codes "user_id") m.state) in
    nonempty user_id
    && (nonempty (str_or_empty rt (get (codes "refresh_token_hash") m.state))
        && is_some (user_of user_id s))

-- The session that the merged history gives.
unfoldable pub session_of_merged :
    Runtime → Text → Merged → ClusterEvent → Store → Result (Option AuthSession)
unfolding str_or_empty session_with_times
session_of_merged rt entity_id m e s =
    if is_session rt m s then session_with_times rt entity_id m e s else ok none

abbrev pub session_of_history :
    Runtime → Text → List ClusterEvent → Option ClusterEvent → Store → Result (Option AuthSession)
session_of_history rt entity_id events none s = ok none
session_of_history rt entity_id events (some e) s =
    merge rt is_revocation events nothing_merged >>= λ m. session_of_merged rt entity_id m e s

unfoldable pub session_row : Runtime → Text → Store → Result (Option AuthSession)
unfolding session_of_merged merge history
session_row rt entity_id s =
    let events = history (codes "session") entity_id s in
    session_of_history rt entity_id events (last? events) s

abbrev pub put_session : Context → Text → Option AuthSession → Store → Result Store
put_session c entity_id none s = ok s
put_session c entity_id (some a) s =
    let saved = save_session a s in
    project_push_all c
      (events_of c.rt (codes "push_subscription") (codes "session_id") entity_id saved) saved

unfoldable pub project_session : Context → Text → Store → Result Store
unfolding session_row save project_push_all events_of
project_session c entity_id s = session_row c.rt entity_id s >>= λ a. put_session c entity_id a s
