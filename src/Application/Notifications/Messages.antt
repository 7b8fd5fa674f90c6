-- ===== src/Application/Notifications/Messages.antt =====
-- What is sent and what is replicated of a delivery: `message_from_event`, the payloads of receipts
-- and of push subscriptions, `deterministic_delivery_id` and `retry_delay_seconds`.
use alert_hub.Prelude.{
  ℕ, ◌-◌, ◌*◌, ◌^◌, min, ◌||◌, Option, none, some, [], ◌∷◌, ◌++◌, Text, text_eq, nat_eq, ◌==◌,
  codes, nonempty, ltb, leb, Result, ok, value_error, ◌>>◌, raise_if, if◌then◌else◌,
}
use alert_hub.Prelude.Texts.{replace_offset}
use alert_hub.Runtime.{Value, Fields, Runtime, get, str_or, text_or_null, iso_or_null}
use alert_hub.Runtime.Value.{number, text, object}
use alert_hub.Runtime.Fields.{end, field}
use alert_hub.Domain.Events.Defs.{event_type_name}
use alert_hub.Application.Rows.{Delivery, Incident, IncidentEvent, PushSubscription}

pub record NotificationMessage : Type 0 where
  pub event_id : Text
  pub event_type : Text
  pub incident_id : Text
  pub source_id : Text
  pub title : Text
  pub body : Text
  pub severity : Text
  pub status : Text
  pub occurred_at : ℕ
  pub app_name : Text
  pub labels : Fields
  pub annotations : Fields
  pub incident_url : Option Text

unfoldable pub provider_payload : Runtime → NotificationMessage → Fields
unfolding replace_offset
provider_payload rt m = field (codes "schema_version") (number 1) (
    field (codes "event_id") (text m.event_id) (
      field (codes "event_type") (text m.event_type) (
        field (codes "incident_id") (text m.incident_id) (
          field (codes "source_id") (text m.source_id) (
            field (codes "app_name") (text m.app_name) (
              field (codes "title") (text m.title) (
                field (codes "description") (text m.body) (
                  field (codes "severity") (text m.severity) (
                    field (codes "status") (text m.status) (
                      field (codes "occurred_at")
                        (text (replace_offset (rt.iso_format m.occurred_at)))
                        (field (codes "labels") (object m.labels) (
                          field (codes "annotations") (object m.annotations) (
                            field (codes "incident_url") (text_or_null m.incident_url)
                              end)))))))))))))

-- `url.rstrip("/")`
abbrev pub drop_slash : ℕ → Text → Text
drop_slash c [] = if c == b'/' then [] else c ∷ []
drop_slash c (d ∷ s) = c ∷ d ∷ s

unfoldable pub rstrip_slashes : Text → Text
rstrip_slashes [] = []
rstrip_slashes (c ∷ s) = drop_slash c (rstrip_slashes s)

abbrev pub incident_url : Option Text → Text → Option Text
incident_url none incident_id = none
incident_url (some url) incident_id =
    if nonempty url then some (rstrip_slashes url ++ (codes "/incidents/" ++ incident_id)) else none

abbrev pub dict_or : Value → Fields → Fields
dict_or (object fs) default = fs
dict_or _ default = default

unfoldable pub message_from_event :
    Runtime → IncidentEvent → Incident → Option Text → Text → NotificationMessage
unfolding rstrip_slashes
message_from_event rt e i public_api_url app_name = record {
  event_id = e.id;
  event_type = event_type_name e.event_type;
  incident_id = i.id;
  source_id = i.source_id;
  title = str_or rt (get (codes "title") e.payload) i.title;
  body = str_or rt (get (codes "description") e.payload) i.description;
  severity = str_or rt (get (codes "severity") e.payload) i.severity;
  status = event_type_name e.event_type;
  occurred_at = e.occurred_at;
  app_name = app_name;
  labels = dict_or (get (codes "labels") e.payload) i.labels;
  annotations = dict_or (get (codes "annotations") e.payload) i.annotations;
  incident_url = incident_url public_api_url i.id;
}

unfoldable pub delivery_receipt_payload : Runtime → Delivery → Text → Fields
delivery_receipt_payload rt d source_event_key = field (codes "delivery_id") (text d.id) (
    field (codes "event_id") (text d.event_id) (
      field (codes "source_event_key") (text source_event_key) (
        field (codes "channel_id") (text d.channel_id) (
          field (codes "subscription_id") (text_or_null d.subscription_id) (
            field (codes "owner_node_id") (text d.owner_node_id) (
              field (codes "attempt") (number d.attempt) (
                field (codes "status") (text d.status) (
                  field (codes "provider_status") (text_or_null d.provider_status) (
                    field (codes "error_code") (text_or_null d.error_code) (
                      field (codes "created_at") (text (rt.iso_format d.created_at))
                        (field (codes "finished_at") (iso_or_null rt d.finished_at) end)))))))))))

unfoldable pub push_subscription_payload : Runtime → PushSubscription → Fields
push_subscription_payload rt p = field (codes "user_id") (text p.user_id) (
    field (codes "session_id") (text_or_null p.session_id) (
      field (codes "device_name") (text p.device_name) (
        field (codes "endpoint") (text (rt.b64encode p.endpoint)) (
          field (codes "p256dh") (text (rt.b64encode p.p256dh)) (
            field (codes "auth") (text (rt.b64encode p.auth)) (
              field (codes "user_agent") (text_or_null p.user_agent) (
                field (codes "created_at") (text (rt.iso_format p.created_at)) (
                  field (codes "last_success_at") (iso_or_null rt p.last_success_at)
                    (field (codes "disabled_at") (iso_or_null rt p.disabled_at) end)))))))))

unfoldable pub push_subscription_success_payload : Runtime → ℕ → Fields
push_subscription_success_payload rt succeeded_at =
    field (codes "schema_version") (number 1)
      (field (codes "last_success_at") (text (rt.iso_format succeeded_at)) end)

-- `subscription_id or '-'`
abbrev pub id_or_dash : Option Text → Text
id_or_dash none = codes "-"
id_or_dash (some i) = if nonempty i then i else codes "-"

unfoldable pub deterministic_delivery_id : Runtime → Text → Text → Option Text → Text
deterministic_delivery_id rt event_identity channel_id subscription_id = rt.uuid5 (
    codes "alert_hub:delivery:"
    ++ (event_identity ++ (codes ":" ++ (channel_id ++ (codes ":" ++ id_or_dash subscription_id)))))

-- Delays are whole microseconds.
unfoldable pub retry_delay : ℕ → ℕ → ℕ → Result ℕ
retry_delay attempt base cap = do
  raise_if (ltb attempt 1) value_error
  raise_if (leb base 0 || leb cap 0) value_error
  ok (min cap (base * 2 ^ (attempt - 1)))
