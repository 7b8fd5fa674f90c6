-- ===== src/Application/Notifications/Provider.antt =====
-- What goes to a provider and what comes back: `_provider_input` and the call in `_process_target`.
use alert_hub.Prelude.{
  ℕ, Bool, Option, none, some, is_some, Text, text_eq, nat_eq, codes, if◌then◌else◌,
}
use alert_hub.Runtime.{Fields}
use alert_hub.Application.Rows.{Incident, IncidentEvent, NotificationChannel, PushSubscription}
use alert_hub.Application.Store.{Context, Store, get_incident}
use alert_hub.Application.PushSessions.{
  PushState, disable_push_subscription, disable_session_push_subscriptions, is_active,
  push_subscription_session_state, requires_tombstone,
}
use alert_hub.Application.Notifications.Messages.{NotificationMessage, message_from_event}
use alert_hub.Application.Notifications.Deliveries.{channel_of, get_event, subscription_of}
use alert_hub.Application.Notifications.Queue.{WorkerSettings}
use alert_hub.Application.Notifications.Ledger.{DeliveryOutcome, DeliveryResult, TargetDescriptor}

pub record DeliveryTarget : Type 0 where
  pub channel_id : Text
  pub channel_kind : Text
  pub config : Fields
  pub subscription_id : Option Text
  pub keys : Option (Text × (Text × Text))

-- What the worker takes from outside: the cipher, the providers, and what other transactions do
-- while it waits for the provider or paces itself.
pub record Outside : Type 0 where
  pub decrypt_channel_config : NotificationChannel → Option Fields  -- `none` is `EncryptionError`
  pub decrypt_push_subscription : PushSubscription → Option (Text × (Text × Text))
  pub supports : Text → Bool  -- `providers.get(kind) is not None`
  pub send : NotificationMessage → DeliveryTarget → Option DeliveryResult  -- `none` is an exception
  pub meanwhile : Store → Store
  pub paused : Store → Store
  pub finished_at : ℕ  -- the time after the provider answered

-- The keys of an endpoint; the outer `none` is `EncryptionError`.
abbrev pub Keys : Type 0
Keys = Option (Option (Text × (Text × Text)))

abbrev pub some_keys : Option (Text × (Text × Text)) → Keys
some_keys none = none
some_keys (some k) = some (some k)

-- A subscription that can never receive again is removed, with the others of its session.
abbrev pub retire_subscription : Context → PushSubscription → Option Text → Store → Store
retire_subscription c p none s = (disable_push_subscription c p (some c.now) s).0
retire_subscription c p (some i) s = (disable_session_push_subscriptions c i (some c.now) s).0

abbrev pub keys_in_state : Outside → Context → PushSubscription → PushState → Store → Store × Keys
keys_in_state out c p state s =
    if is_active state
    then (s, some_keys (out.decrypt_push_subscription p))
    else if requires_tombstone state
    then (retire_subscription c p p.session_id s, none)
    else (s, none)

abbrev pub keys_of_found : Outside → Context → Option PushSubscription → Store → Store × Keys
keys_of_found out c none s = (s, none)
keys_of_found out c (some p) s =
    if is_some p.disabled_at
    then (s, none)
    else keys_in_state out c p (push_subscription_session_state p c.now s) s

abbrev pub keys_of : Outside → Context → Option Text → Store → Store × Keys
keys_of out c none s = (s, some none)
keys_of out c (some i) s = keys_of_found out c (subscription_of i s) s

pub record ProviderInput : Type 0 where
  pub message : NotificationMessage
  pub target : DeliveryTarget

abbrev pub input_with :
    WorkerSettings
    → Context
    → TargetDescriptor
    → IncidentEvent
    → Incident
    → NotificationChannel
    → Fields
    → Keys
    → Option ProviderInput
input_with w c t e i x config none = none
input_with w c t e i x config (some keys) = some (record {
  message = message_from_event c.rt e i w.public_url w.app_name;
  target = record {
    channel_id = x.id;
    channel_kind = x.kind;
    config = config;
    subscription_id = t.subscription_id;
    keys = keys;
  };
})

abbrev pub input_of_config :
    WorkerSettings
    → Outside
    → Context
    → TargetDescriptor
    → IncidentEvent
    → Incident
    → NotificationChannel
    → Option Fields
    → Store
    → Store × Option ProviderInput
input_of_config w out c t e i x none s = (s, none)
input_of_config w out c t e i x (some config) s =
    let r = keys_of out c t.subscription_id s in (r.0, input_with w c t e i x config r.1)

abbrev pub input_of_incident :
    WorkerSettings
    → Outside
    → Context
    → TargetDescriptor
    → IncidentEvent
    → NotificationChannel
    → Option Incident
    → Store
    → Store × Option ProviderInput
input_of_incident w out c t e x none s = (s, none)
input_of_incident w out c t e x (some i) s =
    input_of_config w out c t e i x (out.decrypt_channel_config x) s

abbrev pub input_of_found :
    WorkerSettings
    → Outside
    → Context
    → TargetDescriptor
    → Option IncidentEvent
    → Option NotificationChannel
    → Store
    → Store × Option ProviderInput
input_of_found w out c t (some e) (some x) s =
    input_of_incident w out c t e x (get_incident e.incident_id s) s
input_of_found w out c t _ _ s = (s, none)

-- `none` is `EncryptionError`.
unfoldable pub provider_input :
    WorkerSettings
    → Outside
    → Context
    → Text
    → TargetDescriptor
    → Store
    → Store × Option ProviderInput
unfolding message_from_event push_subscription_session_state disable_session_push_subscriptions
    disable_push_subscription
provider_input w out c event_id t s =
    input_of_found w out c t (get_event event_id s) (channel_of t.channel_id s) s

abbrev pub failure : DeliveryOutcome → Text → Text → DeliveryResult
failure outcome provider_status error_code = record {
  outcome = outcome;
  provider_status = some provider_status;
  error_code = some error_code;
}

abbrev pub answer_or_failure : Option DeliveryResult → DeliveryResult
answer_or_failure (some r) = r
answer_or_failure none =
    failure DeliveryOutcome.retryable (codes "transport_error") (codes "provider_unavailable")

-- The answer of the provider, or what stands for it.
unfoldable pub answer_of : Outside → Option ProviderInput → DeliveryResult
answer_of out none =
    failure DeliveryOutcome.permanent (codes "configuration_error") (codes "decrypt_failed")
answer_of out (some input) =
    if out.supports input.target.channel_kind
    then answer_or_failure (out.send input.message input.target)
    else failure DeliveryOutcome.permanent (codes "unsupported_provider")
        (codes "unsupported_provider")

-- The provider was called where the input was there and its kind is supported.
abbrev pub after_call : Outside → Option ProviderInput → Store → Store
after_call out none s = s
after_call out (some input) s =
    if out.supports input.target.channel_kind then out.meanwhile s else s
