-- ===== src/Application/Heartbeats/Tests.antt =====
-- The theorem on the scan, at a concrete input.
use alert_hub.Prelude.{
  ℕ, zero, suc, ◌+◌, ◌≡◌, refl, Bool, true, false, Option, none, some, text_eq, text_beq, ok,
}
use alert_hub.Toy.{or_default, is_ok, ok_of_default}
use alert_hub.Runtime.{Value, get, has, truthy}
use alert_hub.Domain.Time.{as_utc}
use alert_hub.Runtime.Value.{number}
use alert_hub.Domain.Events.Defs.{project_incident, apply_type, run}
use alert_hub.Domain.Normalized.{event_key, incident_fingerprint}
use alert_hub.Application.Store.{Store, append_cluster_event}
use alert_hub.Application.Incidents.Ingest.{
  ingest_one, ingest_found, ingest_new, write_event, ensure_incident, opened_incident,
  cluster_payload, ingest_normalized_events,
}
use alert_hub.Application.Incidents.Reproject.{reproject_incident, timeline}
use alert_hub.Application.Heartbeats.Observe.{ensure_state}
use alert_hub.Application.Heartbeats.Evaluate.{
  Floats, evaluate_heartbeats, evaluate_one, window_end, heartbeat_window, evaluate_window,
  fire_missed, source_event,
}
use alert_hub.Application.Heartbeats.Settled.{evaluate_heartbeats_again}
use alert_hub.Application.TestData.{context, store}

-- Numbers without fractions, and no other.
abbrev float_of_number : Value → Option ℕ
float_of_number (number n) = some n
float_of_number _ = none

abbrev is_null : ℕ → Bool
is_null zero = true
is_null (suc n) = false

abbrev floats : Floats
floats = record {
  Float = ℕ;
  to_float = float_of_number;
  is_finite = λ n. true;
  is_negative = λ n. false;
  is_zero = is_null;
  later = λ t a b. some (t + (a + b));
}

abbrev scanned : Store × ℕ
scanned = or_default (store, 0) (evaluate_heartbeats floats (context 100) (some 100) store)

scan_done_is_ok : is_ok (evaluate_heartbeats floats (context 100) (some 100) store) ≡ true
unfolding truthy evaluate_heartbeats evaluate_one ensure_state window_end heartbeat_window has
    evaluate_window fire_missed source_event ingest_normalized_events ingest_one ingest_found
    ingest_new reproject_incident project_incident timeline write_event text_beq ensure_incident
    opened_incident incident_fingerprint append_cluster_event apply_type as_utc get cluster_payload
    run event_key
scan_done_is_ok = refl

scan_done : evaluate_heartbeats floats (context 100) (some 100) store ≡ ok scanned
scan_done =
    ok_of_default (store, 0) (evaluate_heartbeats floats (context 100) (some 100) store)
      scan_done_is_ok

evaluate_heartbeats_again_example :
    evaluate_heartbeats floats (context 101) (some 100) scanned.0 ≡ ok (scanned.0, 0)
evaluate_heartbeats_again_example =
    evaluate_heartbeats_again floats (context 100) (context 101) 100 store scan_done
