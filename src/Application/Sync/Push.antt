-- ===== src/Application/Sync/Push.antt =====
-- `_project_push_subscription`.
use alert_hub.Prelude.{
  ℕ, Bool, true, false, ◌&&◌, Option, none, some, is_some, List, [], ◌∷◌, Text, text_eq, ◌==◌,
  codes, keep, nonempty, Result, ok, ◌>>=◌, if◌then◌else◌,
}
use alert_hub.Runtime.{Runtime, get, py_str, str_or_empty, str_or_none}
use alert_hub.Application.Rows.{ClusterEvent, AuthSession, PushSubscription}
use alert_hub.Application.Store.{Context, Store}
use alert_hub.Application.Notifications.Deliveries.{subscription_of, save_subscription}
use alert_hub.Application.Sync.History.{
  entity_events, optional_field, payload_datetime, payload_time, text_field,
}
use alert_hub.Application.Sync.Replay.{replay_delivery_receipts}
use alert_hub.Application.Sync.Registration.{
  user_of, session_of, is_state_event, configuration, Endpoint, decoded, later_time, last_success,
  disabled_time,
}

abbrev pub subscription_or_new :
    Text → ℕ → Text → Option Text → Option PushSubscription → PushSubscription
subscription_or_new entity_id created_at user_id session_id (some p) = p
subscription_or_new entity_id created_at user_id session_id none = record {
  id = entity_id;
  user_id = user_id;
  session_id = session_id;
  device_name = codes "Installed PWA";
  endpoint = [];
  p256dh = [];
  auth = [];
  user_agent = none;
  created_at = created_at;
  last_success_at = none;
  disabled_at = none;
}

-- The session that is asked for is there and is the user's.
abbrev pub links : Option Text → Text → Option AuthSession → Bool
links none user_id linked = true
links (some i) user_id none = false
links (some i) user_id (some a) = a.user_id == user_id

abbrev pub linked_session : Option Text → Store → Option AuthSession
linked_session none s = none
linked_session (some i) s = session_of i s

-- The row after the history; the keys are those of the configuration event.
unfoldable pub subscription_row :
    Runtime
    → Text
    → List ClusterEvent
    → ClusterEvent
    → Text
    → Endpoint
    → Store
    → Result PushSubscription
unfolding payload_datetime last_success disabled_time py_str
subscription_row rt entity_id events e user_id keys s = do
  let session_id = str_or_none rt (get (codes "session_id") e.payload)
  created_at ← payload_time rt (codes "created_at") e
  succeeded ← last_success rt events none
  disabled_at ←
      disabled_time rt (keep is_state_event events) e session_id (linked_session session_id s)
  let p = subscription_or_new entity_id created_at user_id session_id (subscription_of entity_id s)
  ok (record p {
    user_id = user_id;
    session_id = session_id;
    device_name = text_field rt 255 (codes "device_name") p.device_name e.payload;
    endpoint = keys.endpoint;
    p256dh = keys.p256dh;
    auth = keys.auth;
    user_agent = optional_field rt 1024 (codes "user_agent") e.payload;
    last_success_at = later_time succeeded p.last_success_at;
    disabled_at = disabled_at;
  })

-- A user that is there, and a session that is there and theirs, or none.
unfoldable pub can_subscribe : Runtime → ClusterEvent → Store → Bool
unfolding str_or_empty py_str
can_subscribe rt e s =
    let user_id = str_or_empty rt (get (codes "user_id") e.payload) in
    let session_id = str_or_none rt (get (codes "session_id") e.payload) in
    nonempty user_id
    && (is_some (user_of user_id s) && links session_id user_id (linked_session session_id s))

-- The row that the history of a subscription gives, if it gives one.
abbrev pub configured_row :
    Runtime
    → Text
    → List ClusterEvent
    → ClusterEvent
    → Option Endpoint
    → Store
    → Result (Option PushSubscription)
configured_row rt entity_id events e none s = ok none
configured_row rt entity_id events e (some keys) s =
    if can_subscribe rt e s
    then (subscription_row rt entity_id events e (str_or_empty rt (get (codes "user_id") e.payload))
          keys s
        >>= λ p. ok (some p))
    else ok none

abbrev pub row_of_history :
    Runtime
    → Text
    → List ClusterEvent
    → Option ClusterEvent
    → Store
    → Result (Option PushSubscription)
row_of_history rt entity_id events none s = ok none
row_of_history rt entity_id events (some e) s =
    configured_row rt entity_id events e (decoded rt e.payload) s

unfoldable pub push_row : Runtime → Text → Store → Result (Option PushSubscription)
unfolding can_subscribe subscription_row decoded configuration str_or_empty
push_row rt entity_id s =
    let events = entity_events (codes "push_subscription") entity_id s in
    row_of_history rt entity_id events (configuration (keep is_state_event events)) s

abbrev pub put_subscription : Option PushSubscription → Store → Store
put_subscription none s = s
put_subscription (some p) s = save_subscription p s

abbrev pub replay_if : Context → Text → Option PushSubscription → Store → Result Store
replay_if c entity_id none s = ok s
replay_if c entity_id (some p) s =
    replay_delivery_receipts c
      (record {
        event_id = none;
        event_key = none;
        channel_id = none;
        subscription_id = some entity_id;
      })
      s

unfoldable pub project_push_subscription : Context → Text → Store → Result Store
unfolding push_row replay_delivery_receipts
project_push_subscription c entity_id s =
    push_row c.rt entity_id s >>= λ p. replay_if c entity_id p (put_subscription p s)

unfoldable pub project_push_all : Context → List ClusterEvent → Store → Result Store
unfolding project_push_subscription
project_push_all c [] s = ok s
project_push_all c (e ∷ es) s =
    project_push_subscription c e.entity_id s >>= λ s'. project_push_all c es s'
