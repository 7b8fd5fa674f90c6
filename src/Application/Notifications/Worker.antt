-- ===== src/Application/Notifications/Worker.antt =====
-- `_process_item` and `run_once` of the notification worker.
use alert_hub.Prelude.{
  ℕ, ◌+◌, not, Option, none, some, List, [], ◌∷◌, ◌++◌, Text, text_eq, nat_eq, codes, keep, map,
  nonempty, or_else, length, Result, ok, raise, if◌then◌else◌,
}
use alert_hub.Domain.Checks.Aggregate.{minimum, some_texts, somes, sorted_set}
use alert_hub.Application.Store.{Context, Store}
use alert_hub.Application.Notifications.Queue.{
  WorkerSettings, claim_batch, complete_item, release_item,
}
use alert_hub.Application.Notifications.Ledger.{TargetDescriptor, TargetProgress}
use alert_hub.Application.Notifications.Prepare.{Prepared, prepare_targets, nothing, targets}
use alert_hub.Application.Notifications.Provider.{Outside}
use alert_hub.Application.Notifications.Dispatch.{process_target}

abbrev pub add_progress :
    TargetProgress → Result (List TargetProgress) → Result (List TargetProgress)
add_progress p (raise e) = raise e
add_progress p (ok ps) = ok (p ∷ ps)

-- The loop over the targets of an item; an error ends it.
unfoldable pub process_all :
    WorkerSettings
    → Outside
    → Context
    → Text
    → List TargetDescriptor
    → Store
    → Store × Result (List TargetProgress)
process_all w out c event_id [] s = (s, ok [])
process_all w out c event_id (t ∷ ts) s =
    let r = process_target w out c event_id t s in
    let rest = process_all w out c event_id ts r.0 in
    elim r.1 [ raise e ↦ (r.0, raise e) | ok p ↦ (rest.0, add_progress p rest.1) ]

-- `",".join(...)`
unfoldable pub join_commas : List Text → Text
join_commas [] = []
join_commas (a ∷ []) = a
join_commas (a ∷ b ∷ rest) = let later = join_commas (b ∷ rest) in a ++ (codes "," ++ later)

abbrev pub text_or_none : Text → Option Text
text_or_none s = if nonempty s then some s else none

-- The error codes of the targets, each once and in order.
unfoldable pub error_codes : List TargetProgress → Option Text
unfolding join_commas sorted_set
error_codes ps = text_or_none (
    join_commas
      (sorted_set (keep nonempty (some_texts (map (λ (p : TargetProgress). p.error_code) ps)))))

abbrev pub pending_of : List TargetProgress → List TargetProgress
pending_of ps = keep (λ (p : TargetProgress). not p.terminal) ps

-- The item after its targets: complete, or to be tried at the earliest of their times.
unfoldable pub settle_item : Context → Text → List TargetProgress → Store → Store
unfolding error_codes complete_item release_item
settle_item c item_id ps s =
    if nonempty (pending_of ps)
    then release_item item_id
        (or_else (minimum (somes (map (λ (p : TargetProgress). p.available_at) (pending_of ps))))
          c.now)
        (error_codes (pending_of ps)) s
    else complete_item item_id c.now (error_codes ps) s

-- An error releases the item after the first delay.
abbrev pub settle_result :
    WorkerSettings → Context → Text → Result (List TargetProgress) → Store → Store
settle_result w c item_id (ok ps) s = settle_item c item_id ps s
settle_result w c item_id (raise e) s =
    release_item item_id (c.now + w.retry_base) (some (codes "worker_error")) s

abbrev pub process_prepared : WorkerSettings → Outside → Context → Text → Prepared → Store → Store
process_prepared w out c item_id nothing s = s
process_prepared w out c item_id (targets event_id ts) s =
    let r = process_all w out c event_id ts s in settle_result w c item_id r.1 r.0

unfoldable pub process_item : WorkerSettings → Outside → Context → Text → Store → Store
unfolding prepare_targets process_all settle_item release_item
process_item w out c item_id s =
    let prepared = prepare_targets c item_id s in
    process_prepared w out c item_id prepared.1 prepared.0

unfoldable pub process_items : WorkerSettings → Outside → Context → List Text → Store → Store
process_items w out c [] s = s
process_items w out c (i ∷ is) s = process_items w out c is (process_item w out c i s)

unfoldable pub run_once : WorkerSettings → Outside → Context → Store → Store × ℕ
unfolding claim_batch process_items
run_once w out c s = let r = claim_batch w c.now s in (process_items w out c r.1 r.0, length r.1)
