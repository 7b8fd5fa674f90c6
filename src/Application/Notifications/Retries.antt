-- ===== src/Application/Notifications/Retries.antt =====
-- `_record_result`: how often, and when, a delivery is tried again.
use alert_hub.Prelude.{
  ℕ, ◌≡◌, refl, ◌≤◌, ◌<◌, ◌+◌, Bool, true, false, Option, none, some, Text, arith, Result, ok,
  raise, >>=-eq-ok,
}
use alert_hub.Application.Rows.{Delivery}
use alert_hub.Application.Store.{Context, Store}
use alert_hub.Application.Notifications.Messages.{retry_delay}
use alert_hub.Application.Notifications.Deliveries.{delivery_of}
use alert_hub.Application.Notifications.Queue.{WorkerSettings}
use alert_hub.Application.Notifications.Ledger.{DeliveryResult, TargetDescriptor, TargetProgress}
use alert_hub.Application.Notifications.Outcome.{
  committed, is_retryable, may_retry, next_progress, record_found, record_on, record_result,
  with_result,
}

retry_delay-le :
    (attempt base cap : ℕ) {d : ℕ} → retry_delay attempt base cap ≡ ok d → (1 ≤ attempt) × (d ≤ cap)
unfolding retry_delay
retry_delay-le attempt base cap {d} h = ground (arith, h)

-- That a target is tried again, before the last attempt and within the longest delay.
abbrev pub IsRetry : WorkerSettings → ℕ → ℕ → TargetProgress → Type 0
IsRetry w now attempt p =
    (attempt < w.max_attempts)
    × (u : ℕ) × (p.available_at ≡ some u)
    × (now ≤ u)
    × (u ≤ now + w.retry_max)

next_progress-IsRetry :
    (w : WorkerSettings) (now attempt : ℕ) (may : Bool) (e : Option Text) {p : TargetProgress}
    → next_progress w now attempt may e ≡ ok p
    → p.terminal ≡ false
    → (may ≡ true) × (u : ℕ) × (p.available_at ≡ some u) × (now ≤ u) × (u ≤ now + w.retry_max)
unfolding next_progress
next_progress-IsRetry w now attempt false e h open_ = ground (arith, h, open_)
next_progress-IsRetry w now attempt true e {p} h open_ =
    let (delay, called, done) =
      >>=-eq-ok (retry_delay attempt w.retry_base w.retry_max)
        (λ delay.
          ok (record { terminal = false; available_at = some (now + delay); error_code = e }))
        h in
    let (one, bound) = retry_delay-le attempt w.retry_base w.retry_max called in
    (refl, now + delay, ground (arith, done), omega arith, omega arith)

committed-next :
    (s : Store) (r : Result Store) (next : Store → Result TargetProgress) {p : TargetProgress}
    → (committed s r next).1 ≡ ok p
    → (t : Store) × (next t ≡ ok p)
committed-next s (raise e) next h = cc
committed-next s (ok t) next h = (t, h)

record_found-IsRetry :
    (w : WorkerSettings) (c : Context) (t : TargetDescriptor) (r : DeliveryResult) (attempt : ℕ)
    (d : Option Delivery) (s : Store) {p : TargetProgress}
    → (record_found w c t r attempt d s).1 ≡ ok p
    → p.terminal ≡ false
    → (is_retryable r.outcome ≡ true) × IsRetry w c.now attempt p
record_found-IsRetry w c t r attempt none s h again = ground (arith, h, again)
record_found-IsRetry w c t r attempt (some d) s {p} h again =
    let may = may_retry w r attempt in
    let code = (with_result c.now r may d).error_code in
    let (q, done) =
      committed-next s (record_on c t r may d s) (λ s'. next_progress w c.now attempt may code) h in
    let (allowed, u, at, above, below) =
      next_progress-IsRetry w c.now attempt may code done again in
    (ground (arith, allowed), (ground (arith, allowed), u, at, above, below))

-- After any answer of a provider, for any delivery, a target that is not settled had a retryable
-- answer and an attempt below the greatest number of attempts, and its next time is not in the past
-- and no further away than the longest delay: at the last attempt every answer settles the target.
pub record_result-IsRetry :
    (w : WorkerSettings) (c : Context) (i : Text) (t : TargetDescriptor) (r : DeliveryResult)
    (attempt : ℕ) (s : Store) {p : TargetProgress}
    → (record_result w c i t r attempt s).1 ≡ ok p
    → p.terminal ≡ false
    → (is_retryable r.outcome ≡ true) × IsRetry w c.now attempt p
unfolding record_result
record_result-IsRetry w c i t r attempt s = record_found-IsRetry w c t r attempt (delivery_of i s) s
