-- ===== src/Domain/Adapters/Defs.antt =====
-- backend/alert_hub/domain/adapters.py, and `stable_label_key` of domain/events.py.
use alert_hub.Prelude.{
  ℕ, Bool, true, false, not, Option, none, some, List, [], ◌∷◌, Text, codes, ◌==◌, text_eq, nat_eq,
  nonempty, Result, ok, raise, ◌>>=◌, ◌>>◌, raise_if, adapter_error, if◌then◌else◌,
}
use alert_hub.Prelude.Texts.{strip}
use alert_hub.Runtime.{
  str_or_none, Value, Values, Fields, Runtime, get, has, truthy, py_str, str_or_empty, or_value,
}
use alert_hub.Runtime.Value.{null, boolean, number, text, array, object}
use alert_hub.Runtime.Values.{nil, cons}
use alert_hub.Runtime.Fields.{end, field}
use alert_hub.Domain.Time.{as_utc}
use alert_hub.Domain.Severity.{normalize_severity}
use alert_hub.Domain.Normalized.{EventStatus, NormalizedEvent, normalized_event}

-- The labels with their values printed.
unfoldable pub printed : Runtime → Fields → Fields
unfolding py_str
printed rt end = end
printed rt (field k v fs) = field k (text (py_str rt v)) (printed rt fs)

unfoldable pub stable_label_key : Runtime → Fields → Text
unfolding printed
stable_label_key rt labels = rt.canonical_json (object (printed rt labels))

-- `_mapping`
abbrev pub mapping : Value → Result Fields
mapping null = ok end
mapping (object fs) = ok fs
mapping _ = raise adapter_error

abbrev pub status_of_name : Text → Result EventStatus
status_of_name s =
    if s == codes "firing"
    then ok EventStatus.firing
    else if s == codes "resolved"
    then ok EventStatus.resolved
    else raise adapter_error

-- `value == 1`
abbrev pub is_one : Value → Bool
is_one (number n) = n == 1
is_one (boolean b) = b
is_one _ = false

abbrev pub is_mapping : Value → Bool
is_mapping (object fs) = true
is_mapping _ = false

-- `as_utc(payload[name]) if payload.get(name) else None`
unfoldable pub utc_or_none : Runtime → ℕ → Value → Result (Option ℕ)
utc_or_none rt now v = if truthy v then (as_utc rt now v none >>= λ t. ok (some t)) else ok none

abbrev pub text_or : Text → Text → Text
text_or [] d = d
text_or (c ∷ s) d = c ∷ s

unfoldable pub normalize_generic : Runtime → ℕ → Fields → Result NormalizedEvent
normalize_generic rt now payload = do
  raise_if
      (if has (codes "schema_version") payload
        then not (is_one (get (codes "schema_version") payload))
        else false)
      adapter_error
  labels ← mapping (get (codes "labels") payload)
  annotations ← mapping (get (codes "annotations") payload)
  let dedup_key = strip (str_or_empty rt (get (codes "dedup_key") payload))
  raise_if (not (nonempty dedup_key)) adapter_error
  status ← status_of_name (rt.lower (str_or_empty rt (get (codes "status") payload)))
  starts_at ← as_utc rt now (get (codes "starts_at") payload) none
  ends_at ← utc_or_none rt now (get (codes "ends_at") payload)
  normalized_event
      (record {
        dedup_key = dedup_key;
        status = status;
        title = strip (
            py_str rt (
              or_value (get (codes "title") payload)
                (or_value (get (codes "alertname") labels) (text dedup_key))));
        description = str_or_empty rt (get (codes "description") payload);
        severity = normalize_severity rt (get (codes "severity") payload);
        starts_at = starts_at;
        ends_at = ends_at;
        labels = labels;
        annotations = annotations;
        source_url = str_or_none rt (get (codes "source_url") payload);
        external_event_id = str_or_none rt (get (codes "external_event_id") payload);
        raw_payload = payload;
      })
      1

-- `provided_fingerprint or None`
abbrev pub given : Text → Option Text
given [] = none
given (c ∷ s) = some (c ∷ s)

abbrev pub nonempty_fields : Fields → Bool
nonempty_fields end = false
nonempty_fields (field k v fs) = true

-- One round of the loop.
unfoldable pub normalize_alert : Runtime → ℕ → Fields → Fields → Result NormalizedEvent
normalize_alert rt now payload raw = do
  labels ← mapping (get (codes "labels") raw)
  annotations ← mapping (get (codes "annotations") raw)
  status ← status_of_name (
      rt.lower (
        py_str rt (
          or_value (get (codes "status") raw)
            (or_value (get (codes "status") payload) (text (codes "firing"))))))
  let provided = strip (str_or_empty rt (get (codes "fingerprint") raw))
  raise_if (if nonempty_fields labels then false else not (nonempty provided)) adapter_error
  starts_at ← as_utc rt now (get (codes "startsAt") raw) none
  ends_at ← utc_or_none rt now (get (codes "endsAt") raw)
  normalized_event
      (record {
        dedup_key = text_or provided (stable_label_key rt labels);
        status = status;
        title = py_str rt (
            or_value (get (codes "summary") annotations) (
              or_value (get (codes "title") annotations)
                (or_value (get (codes "alertname") labels) (text (codes "Alertmanager alert")))));
        description =
            str_or_empty rt (
              or_value (get (codes "description") annotations) (get (codes "message") annotations));
        severity = normalize_severity rt (get (codes "severity") labels);
        starts_at = starts_at;
        ends_at = ends_at;
        labels = labels;
        annotations = annotations;
        source_url =
            str_or_none rt
              (or_value (get (codes "generatorURL") raw) (get (codes "externalURL") payload));
        external_event_id = given provided;
        raw_payload = raw;
      })
      1

unfoldable pub normalize_alerts : Runtime → ℕ → Fields → Values → Result (List NormalizedEvent)
normalize_alerts rt now payload nil = ok []
normalize_alerts rt now payload (cons (object raw) vs) = normalize_alert rt now payload raw >>= λ e.
    normalize_alerts rt now payload vs >>= λ es. ok (e ∷ es)
normalize_alerts rt now payload (cons _ vs) = raise adapter_error

-- The alerts of a payload, which must be an array.
abbrev pub normalize_array : Runtime → ℕ → Fields → Value → Result (List NormalizedEvent)
normalize_array rt now payload (array vs) = normalize_alerts rt now payload vs
normalize_array rt now payload _ = raise adapter_error

unfoldable pub normalize_alertmanager : Runtime → ℕ → Fields → Result (List NormalizedEvent)
unfolding normalize_alerts
normalize_alertmanager rt now payload =
    normalize_array rt now payload (get (codes "alerts") payload)
