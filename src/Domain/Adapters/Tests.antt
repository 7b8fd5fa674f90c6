-- ===== src/Domain/Adapters/Tests.antt =====
-- The theorems on the adapters at concrete inputs.
use alert_hub.Prelude.{◌≡◌, refl, none, some, [], ◌∷◌, codes, text_beq, ok}
use alert_hub.Toy.{toy}
use alert_hub.Runtime.{Fields, Values, get, aware, truthy, py_str, str_or_empty}
use alert_hub.Runtime.Value.{text, object, array, datetime}
use alert_hub.Runtime.Values.{nil, cons}
use alert_hub.Runtime.Fields.{end, field}
use alert_hub.Prelude.Texts.{strip}
use alert_hub.Domain.Severity.{Severity, normalize_severity}
use alert_hub.Domain.Time.{as_utc}
use alert_hub.Domain.Normalized.{EventStatus, NormalizedEvent, normalized_event}
use alert_hub.Domain.Adapters.Defs.{normalize_alertmanager, normalize_alert, utc_or_none}
use alert_hub.Domain.Adapters.Alerts.{AreEventsOf, normalize_alertmanager-keyed}

abbrev alert : Fields
alert =
    field (codes "fingerprint") (text (codes "f1"))
      (field (codes "startsAt") (datetime (aware 7)) end)

abbrev payload : Fields
payload = field (codes "alerts") (array (cons (object alert) nil)) end

abbrev normalized : NormalizedEvent
normalized = record {
  dedup_key = codes "f1";
  status = EventStatus.firing;
  title = codes "Alertmanager alert";
  description = [];
  severity = Severity.unknown;
  starts_at = 7;
  ends_at = none;
  labels = end;
  annotations = end;
  source_url = none;
  external_event_id = some (codes "f1");
  raw_payload = alert;
}

accepted : normalize_alertmanager toy 0 payload ≡ ok (normalized ∷ [])
unfolding normalize_alertmanager get text_beq normalize_alert py_str truthy strip str_or_empty
    as_utc utc_or_none normalized_event normalize_severity
accepted = refl

normalize_alertmanager-keyed_example :
    (vs : Values) × (get (codes "alerts") payload ≡ array vs) × AreEventsOf toy vs (normalized ∷ [])
normalize_alertmanager-keyed_example = normalize_alertmanager-keyed toy 0 payload accepted
