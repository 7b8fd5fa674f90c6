-- ===== src/Application/Heartbeats/Evaluate.antt =====
-- `heartbeat_window` of backend/alert_hub/domain/heartbeats.py, and `_source_event` and
-- `evaluate_heartbeats` of backend/alert_hub/workers/heartbeat.py.
use alert_hub.Prelude.{
  ℕ, ◌+◌, Bool, true, not, ◌&&◌, ◌||◌, Option, none, some, List, [], ◌∷◌, ◌++◌, Text, codes, ◌==◌,
  text_eq, nat_eq, ltb, keep, or_else, Result, ok, raise, value_error, attribute_error,
  overflow_error, ◌>>=◌, ◌>>◌, raise_if, if◌then◌else◌,
}
use alert_hub.Runtime.{Value, Fields, get, has, truthy, py_str, or_value}
use alert_hub.Runtime.Value.{number, text, object}
use alert_hub.Runtime.Fields.{end}
use alert_hub.Domain.Severity.{normalize_severity}
use alert_hub.Domain.Normalized.{
  EventStatus, NormalizedEvent, event_key, status_name, is_resolution,
}
use alert_hub.Application.Rows.{HeartbeatState, Source}
use alert_hub.Application.Store.{Context, Store}
use alert_hub.Application.Incidents.Ingest.{Intake, ingest_normalized_events}
use alert_hub.Application.Heartbeats.Observe.{
  heartbeat_missed, with_source_labels, configured_severity, heartbeat_annotations,
  is_live_heartbeat, ensure_state, save_state, put_state,
}

-- Python's floating-point numbers, as far as the window of a source uses them.
pub record Floats : Type 1 where
  pub Float : Type 0
  pub to_float : Value → Option Float  -- `float(value)`; `none` is any of the errors that are caught
  pub is_finite : Float → Bool  -- `math.isfinite`
  pub is_negative : Float → Bool  -- `x < 0`
  pub is_zero : Float → Bool  -- `x == 0`
  pub later : ℕ → Float → Float → Option ℕ  -- `t + timedelta(seconds=a + b)`; `none` is `OverflowError`

module _ (fl : Floats) where
  abbrev pub float_of : Option fl.Float → Result fl.Float
  float_of none = raise value_error
  float_of (some x) = ok x

  -- `float(config.get(name, default))`
  abbrev pub float_field : Text → ℕ → Fields → Result fl.Float
  float_field name default config =
      float_of (fl.to_float (if has name config then get name config else number default))

  unfoldable pub heartbeat_window : Fields → Result (fl.Float × fl.Float)
  heartbeat_window config = do
    interval ← float_field (codes "interval_seconds") 60 config
    grace ← float_field (codes "grace_seconds") 30 config
    raise_if (not (fl.is_finite interval) || fl.is_negative interval || fl.is_zero interval)
        value_error
    raise_if (not (fl.is_finite grace) || fl.is_negative grace) value_error
    ok (interval, grace)

  -- The end of the window of a source: `none` where the configuration is refused.
  unfoldable pub window_end : Fields → ℕ → Result (Option ℕ)
  window_end config t = elim (heartbeat_window config) [
    | raise _ ↦ ok none
    | ok (interval, grace) ↦ elim (fl.later t interval grace) [
      | none ↦ raise overflow_error
      | some deadline ↦ ok (some deadline)
    ]
  ]

-- `(config.get("labels") or {}).items()`
abbrev pub items_of : Value → Result Fields
items_of (object fs) = ok fs
items_of v = if truthy v then raise attribute_error else ok end

unfoldable pub source_event : Context → Source → EventStatus → ℕ → ℕ → Result NormalizedEvent
source_event c source status starts_at now =
    items_of (get (codes "labels") source.config) >>= λ labels. ok (record {
      dedup_key = heartbeat_missed;
      status = status;
      title = py_str c.rt (
          or_value (get (codes "title") source.config)
            (text (codes "Heartbeat missed: " ++ source.name)));
      description =
          codes "No heartbeat received from "
          ++ (source.name ++ codes " within the configured window");
      severity = normalize_severity c.rt (configured_severity source.config);
      starts_at = starts_at;
      ends_at = if is_resolution status then some now else none;
      labels = with_source_labels source labels;
      annotations = heartbeat_annotations;
      source_url = none;
      external_event_id =
          some (
            codes "heartbeat:" ++ (c.rt.iso_format starts_at ++ (codes ":" ++ status_name status)));
      raw_payload = end;
    })

-- `int(duplicates == 0)`
abbrev pub count_new : Intake → ℕ
count_new r = if r.duplicates == 0 then 1 else 0

-- The event of a source whose deadline has passed; the state is marked after it.
unfoldable pub fire_missed : Context → Source → HeartbeatState → ℕ → ℕ → Store → Result (Store × ℕ)
unfolding put_state
fire_missed c source h deadline current s =
    source_event c source EventStatus.firing deadline current >>= λ e.
    ingest_normalized_events c source (e ∷ []) s >>= λ r. ok (
      save_state (record h { missed = true; last_event_key = some (event_key c.rt e source.id) })
          r.0,
      count_new r.1,
    )

abbrev pub is_overdue : HeartbeatState → ℕ → ℕ → Bool
is_overdue h deadline current = not h.missed && ltb deadline current

unfoldable pub evaluate_window :
    Context → Source → HeartbeatState → ℕ → Store → Option ℕ → Result (Store × ℕ)
evaluate_window c source h current s none = ok (s, 0)
evaluate_window c source h current s (some deadline) =
    if is_overdue h deadline current then fire_missed c source h deadline current s else ok (s, 0)

-- One round of the loop; the number is what the round adds to `fired`.
unfoldable pub evaluate_one : Floats → Context → ℕ → Source → Store → Result (Store × ℕ)
evaluate_one fl c current source s =
    let ensured = ensure_state source s in
    window_end fl source.config ensured.1.last_received_at
    >>= evaluate_window c source ensured.1 current ensured.0

unfoldable pub evaluate_sources : Floats → Context → ℕ → List Source → Store → Result (Store × ℕ)
evaluate_sources fl c current [] s = ok (s, 0)
evaluate_sources fl c current (x ∷ xs) s = evaluate_one fl c current x s >>= λ r.
    evaluate_sources fl c current xs r.0 >>= λ q. ok (q.0, r.1 + q.1)

abbrev pub is_watched : Source → Bool
is_watched source = source.enabled && is_live_heartbeat source

unfoldable pub evaluate_heartbeats : Floats → Context → Option ℕ → Store → Result (Store × ℕ)
unfolding evaluate_sources
evaluate_heartbeats fl c now s =
    evaluate_sources fl c (or_else now c.now) (keep is_watched s.sources) s
