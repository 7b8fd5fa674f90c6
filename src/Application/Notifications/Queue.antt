-- ===== src/Application/Notifications/Queue.antt =====
-- The queue of the notification worker: `_claim_batch`, `_complete_item` and `_release_item`. Times
-- and delays are whole microseconds.
use alert_hub.Prelude.{
  ℕ, ◌+◌, Bool, true, not, ◌&&◌, Option, none, some, is_some, is_none, List, Text, text_eq, ◌==◌,
  contains, find, keep, leb, ltb, map, take, if◌then◌else◌,
}
use alert_hub.Prelude.Sort.{sort_by}
use alert_hub.Domain.Events.Defs.{key_order}
use alert_hub.Application.Rows.{OutboxItem}
use alert_hub.Application.Store.{Store}

-- The settings that the worker reads.
pub record WorkerSettings : Type 0 where
  pub retry_base : ℕ
  pub retry_max : ℕ
  pub lock : ℕ
  pub batch_size : ℕ
  pub max_attempts : ℕ
  pub failover_base : ℕ
  pub poll : ℕ
  pub backlog_age : ℕ
  pub public_url : Option Text
  pub app_name : Text

-- Not locked, or locked for longer than a lock lasts.
abbrev pub is_free : ℕ → ℕ → Option ℕ → Bool
is_free lock now none = true
is_free lock now (some t) = ltb (t + lock) now

abbrev pub is_due : ℕ → ℕ → OutboxItem → Bool
is_due lock now o =
    is_none o.completed_at && (leb o.available_at now && is_free lock now o.locked_at)

unfoldable pub due_items : WorkerSettings → ℕ → Store → List OutboxItem
unfolding sort_by
due_items w now s = take w.batch_size (
    sort_by key_order (λ (o : OutboxItem). (o.available_at, o.id))
      (keep (is_due w.lock now) s.outbox))

abbrev pub claimed : ℕ → List Text → OutboxItem → OutboxItem
claimed now ids o =
    if contains o.id ids then record o { locked_at = some now; attempt = o.attempt + 1 } else o

unfoldable pub claim_batch : WorkerSettings → ℕ → Store → Store × List Text
unfolding due_items
claim_batch w now s =
    let ids = map (λ (o : OutboxItem). o.id) (due_items w now s) in
    (record s { outbox = map (claimed now ids) s.outbox }, ids)

abbrev pub get_item : Text → Store → Option OutboxItem
get_item i s = find (λ (o : OutboxItem). i == o.id) s.outbox

abbrev pub completed : Text → ℕ → Option Text → OutboxItem → OutboxItem
completed i now error_code o =
    if o.id == i
    then record o { completed_at = some now; locked_at = none; last_error = error_code }
    else o

unfoldable pub complete_item : Text → ℕ → Option Text → Store → Store
complete_item i now error_code s = record s { outbox = map (completed i now error_code) s.outbox }

abbrev pub released : Text → ℕ → Option Text → OutboxItem → OutboxItem
released i available_at error_code o =
    if o.id == i && not (is_some o.completed_at)
    then record o { available_at = available_at; locked_at = none; last_error = error_code }
    else o

unfoldable pub release_item : Text → ℕ → Option Text → Store → Store
release_item i available_at error_code s = record s {
  outbox = map (released i available_at error_code) s.outbox;
}
