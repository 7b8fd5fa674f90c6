-- ===== src/Application/Notifications/Outcome.antt =====
-- What comes of an attempt: `_record_result`, `_defer_no_eligible_node`,
-- `_skip_historical_delivery` and `_backlog_policy`.
use alert_hub.Prelude.{
  ℕ, ◌+◌, Bool, true, false, not, ◌&&◌, Option, none, some, Text, text_eq, nat_eq, ◌==◌, codes,
  head?, keep, take, ltb, Result, ok, raise, ◌>>=◌, if◌then◌else◌,
}
use alert_hub.Prelude.Order.{flip}
use alert_hub.Prelude.Sort.{sort_by}
use alert_hub.Prelude.Table.{save}
use alert_hub.Domain.Events.Defs.{EventType, key_order}
use alert_hub.Application.Rows.{Delivery, IncidentEvent, PushSubscription}
use alert_hub.Application.Store.{Context, Store}
use alert_hub.Application.PushSessions.{disable_push_subscription}
use alert_hub.Application.Notifications.Messages.{retry_delay}
use alert_hub.Application.Notifications.Queue.{WorkerSettings}
use alert_hub.Application.Notifications.Deliveries.{
  clean, delivery_of, get_event, is_succeeded, save_delivery, subscription_of, succeeded_status,
}
use alert_hub.Application.Notifications.Ledger.{
  TargetDescriptor, TargetProgress, finished, DeliveryOutcome, DeliveryResult, is_final,
  append_receipt, new_delivery, succeeded, retryable, permanent, gone,
}

-- `_safe_provider_value`
abbrev pub safe_provider_value : Option Text → Option Text
safe_provider_value none = none
safe_provider_value (some v) = some (take 255 (clean v))

-- The status that an outcome gives, with its error code.
abbrev pub decided : DeliveryOutcome → Bool → Option Text → Text × Option Text
decided succeeded may_retry error_code = (succeeded_status, error_code)
decided gone may_retry error_code = (codes "gone", error_code)
decided retryable true error_code = (codes "retrying", error_code)
decided retryable false error_code = (codes "failed", some (codes "max_attempts"))
decided permanent may_retry error_code = (codes "failed", error_code)

abbrev pub is_retryable : DeliveryOutcome → Bool
is_retryable retryable = true
is_retryable _ = false

abbrev pub is_gone : DeliveryOutcome → Bool
is_gone gone = true
is_gone _ = false

abbrev pub with_result : ℕ → DeliveryResult → Bool → Delivery → Delivery
with_result now r may_retry d = record d {
  status = (decided r.outcome may_retry (safe_provider_value r.error_code)).0;
  provider_status = safe_provider_value r.provider_status;
  error_code = (decided r.outcome may_retry (safe_provider_value r.error_code)).1;
  finished_at = some now;
}

abbrev pub retire_found : Context → Option PushSubscription → Store → Store
retire_found c none s = s
retire_found c (some p) s = (disable_push_subscription c p (some c.now) s).0

-- A subscription that is gone is removed, and its removal replicated.
abbrev pub retire_gone : Context → Bool → Option Text → Store → Store
retire_gone c true (some i) s = retire_found c (subscription_of i s) s
retire_gone c _ _ s = s

-- When the target is tried again.
unfoldable pub next_progress : WorkerSettings → ℕ → ℕ → Bool → Option Text → Result TargetProgress
unfolding retry_delay
next_progress w now attempt false error_code = ok (finished error_code)
next_progress w now attempt true error_code =
    retry_delay attempt w.retry_base w.retry_max >>= λ delay.
    ok (record { terminal = false; available_at = some (now + delay); error_code = error_code })

-- The transaction: the delivery with its result, its subscription and its receipt.
abbrev pub record_on :
    Context → TargetDescriptor → DeliveryResult → Bool → Delivery → Store → Result Store
record_on c t r may_retry d s = append_receipt c (with_result c.now r may_retry d) none (
    retire_gone c (is_gone r.outcome) t.subscription_id
      (save_delivery (with_result c.now r may_retry d) s))

abbrev pub may_retry : WorkerSettings → DeliveryResult → ℕ → Bool
may_retry w r attempt = is_retryable r.outcome && ltb attempt w.max_attempts

-- What was committed, and the progress; an error of the transaction leaves the store.
abbrev pub committed :
    Store → Result Store → (Store → Result TargetProgress) → Store × Result TargetProgress
committed s (raise e) next = (s, raise e)
committed s (ok s') next = (s', next s')

abbrev pub record_found :
    WorkerSettings
    → Context
    → TargetDescriptor
    → DeliveryResult
    → ℕ
    → Option Delivery
    → Store
    → Store × Result TargetProgress
record_found w c t r attempt none s = (s, ok (finished (some (codes "delivery_unavailable"))))
record_found w c t r attempt (some d) s =
    committed s (record_on c t r (may_retry w r attempt) d s) (λ s'.
      next_progress w c.now attempt (may_retry w r attempt)
        (with_result c.now r (may_retry w r attempt) d).error_code)

unfoldable pub record_result :
    WorkerSettings
    → Context
    → Text
    → TargetDescriptor
    → DeliveryResult
    → ℕ
    → Store
    → Store × Result TargetProgress
unfolding append_receipt next_progress disable_push_subscription save
record_result w c delivery_id t r attempt s =
    record_found w c t r attempt (delivery_of delivery_id s) s

abbrev pub deferred : ℕ → Delivery → Delivery
deferred now d = record d {
  owner_node_id = codes "unassigned";
  status = codes "retrying";
  provider_status = some (codes "eligibility_wait");
  error_code = some (codes "no_eligible_node");
  finished_at = some now;
}

abbrev pub wait_progress : WorkerSettings → ℕ → TargetProgress
wait_progress w now = record {
  terminal = false;
  available_at = some (now + w.retry_max);
  error_code = some (codes "no_eligible_node");
}

-- A new delivery has a receipt of its wait; one that succeeded is left.
abbrev pub defer_found :
    WorkerSettings → Context → Delivery → Option Delivery → Store → Store × Result TargetProgress
defer_found w c new none s =
    committed s (append_receipt c (deferred c.now new) none (save_delivery (deferred c.now new) s))
      (λ s'. ok (wait_progress w c.now))
defer_found w c new (some d) s =
    if is_succeeded d
    then (s, ok (finished none))
    else (save_delivery (deferred c.now d) s, ok (wait_progress w c.now))

unfoldable pub defer_no_eligible_node :
    WorkerSettings
    → Context
    → Text
    → Text
    → TargetDescriptor
    → Store
    → Store × Result TargetProgress
unfolding append_receipt save
defer_no_eligible_node w c delivery_id event_id t s =
    defer_found w c (new_delivery c delivery_id event_id t (codes "unassigned") (codes "retrying"))
      (delivery_of delivery_id s) s

abbrev pub skipped : ℕ → Text → Delivery → Delivery
skipped now reason d = record d {
  status = codes "failed";
  provider_status = some (codes "policy_skipped");
  error_code = some reason;
  finished_at = some now;
}

abbrev pub skip_with : Context → Text → Delivery → Store → Store × Result TargetProgress
skip_with c reason d s =
    if is_final d
    then (s, ok (finished d.error_code))
    else committed s
        (append_receipt c (skipped c.now reason d) none (save_delivery (skipped c.now reason d) s))
        (λ s'. ok (finished (some reason)))

abbrev pub skip_found :
    Context → Text → Delivery → Option Delivery → Store → Store × Result TargetProgress
skip_found c reason new (some d) s = skip_with c reason d s
skip_found c reason new none s =
    committed s
      (append_receipt c (skipped c.now reason new) none
        (save_delivery (skipped c.now reason new) s))
      (λ s'. ok (finished (some reason)))

unfoldable pub skip_historical_delivery :
    Context → Text → Text → TargetDescriptor → Text → Store → Store × Result TargetProgress
unfolding append_receipt save
skip_historical_delivery c delivery_id event_id t reason s =
    skip_found c reason (new_delivery c delivery_id event_id t c.node_id (codes "failed"))
      (delivery_of delivery_id s) s

abbrev pub is_alert : EventType → Bool
is_alert EventType.firing = true
is_alert EventType.resolved = true
is_alert _ = false

abbrev pub is_recovery : EventType → Bool
is_recovery EventType.resolved = true
is_recovery _ = false

-- The latest firing or resolution of an incident.
unfoldable pub latest_alert : Text → Store → Option IncidentEvent
unfolding sort_by
latest_alert incident_id s = head? (
    sort_by (flip key_order) (λ (e : IncidentEvent). (e.occurred_at, e.event_key))
      (keep (λ (e : IncidentEvent). e.incident_id == incident_id && is_alert e.event_type)
        s.incident_events))

abbrev pub is_superseded : IncidentEvent → Option IncidentEvent → Bool
is_superseded e none = false
is_superseded e (some l) = not (l.id == e.id)

abbrev pub policy_of : WorkerSettings → ℕ → Option IncidentEvent → Store → Option Text × Bool
policy_of w now none s = (none, false)
policy_of w now (some e) s =
    if ltb (e.occurred_at + w.backlog_age) now
    then if is_superseded e (latest_alert e.incident_id s)
      then (some (codes "backlog_superseded"), true)
      else if is_recovery e.event_type
      then (some (codes "backlog_expired_recovery"), true)
      else (none, true)
    else (none, false)

-- Why the event is too old to be sent, and whether it is old.
unfoldable pub backlog_policy : WorkerSettings → ℕ → Text → Store → Option Text × Bool
unfolding latest_alert
backlog_policy w now event_id s = policy_of w now (get_event event_id s) s
