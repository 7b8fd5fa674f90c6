-- ===== src/Domain/Normalized.antt =====
-- `NormalizedEvent` of backend/alert_hub/domain/events.py with its checks and its identity, and
-- `incident_fingerprint`.
use alert_hub.Prelude.{
  ℕ, Bool, true, false, not, Option, ◌∷◌, ◌++◌, Text, codes, nonempty, Result, ok, ◌>>◌, raise_if,
  value_error, nat_beq,
}
use alert_hub.Prelude.Texts.{strip}
use alert_hub.Runtime.{text_or_null, iso_or_null, Fields, Runtime}
use alert_hub.Runtime.Value.{text, object}
use alert_hub.Runtime.Fields.{end, field}
use alert_hub.Domain.Severity.{Severity, severity_name}
use alert_hub.Domain.Events.Defs.{EventType}

pub data EventStatus : Type 0 where
  firing resolved : EventStatus

abbrev pub status_name : EventStatus → Text
status_name firing = codes "firing"
status_name resolved = codes "resolved"

abbrev pub type_of_status : EventStatus → EventType
type_of_status firing = EventType.firing
type_of_status resolved = EventType.resolved

abbrev pub is_resolution : EventStatus → Bool
is_resolution firing = false
is_resolution resolved = true

pub record NormalizedEvent : Type 0 where
  pub dedup_key : Text
  pub status : EventStatus
  pub title : Text
  pub description : Text
  pub severity : Severity
  pub starts_at : ℕ
  pub ends_at : Option ℕ
  pub labels : Fields
  pub annotations : Fields
  pub source_url : Option Text
  pub external_event_id : Option Text
  pub raw_payload : Fields

-- `event_key`: the digest of what makes the event itself.
unfoldable pub event_key : Runtime → NormalizedEvent → Text → Text
event_key rt e source_id = rt.sha256 (
    rt.canonical_json (
      object (
        field (codes "source_id") (text source_id) (
          field (codes "external_event_id") (text_or_null e.external_event_id) (
            field (codes "dedup_key") (text e.dedup_key) (
              field (codes "status") (text (status_name e.status)) (
                field (codes "starts_at") (text (rt.iso_format e.starts_at)) (
                  field (codes "ends_at") (iso_or_null rt e.ends_at) (
                    field (codes "title") (text e.title) (
                      field (codes "description") (text e.description) (
                        field (codes "severity") (text (severity_name e.severity)) (
                          field (codes "labels") (object e.labels)
                            (field (codes "annotations") (object e.annotations) end)))))))))))))

unfoldable pub incident_fingerprint : Runtime → Text → Text → Text
incident_fingerprint rt source_id dedup_key = rt.sha256 (source_id ++ 0 ∷ dedup_key)

-- The checks of `__post_init__`; the status and the severity are checked by their types.
unfoldable pub normalized_event : NormalizedEvent → ℕ → Result NormalizedEvent
unfolding strip
normalized_event e schema_version = do
  raise_if (not (nonempty (strip e.dedup_key))) value_error
  raise_if (not (nat_beq schema_version 1)) value_error
  ok e
