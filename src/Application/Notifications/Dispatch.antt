-- ===== src/Application/Notifications/Dispatch.antt =====
-- `_process_target` of the notification worker.
use alert_hub.Prelude.{
  ℕ, zero, suc, ◌+◌, max, Bool, true, false, Option, none, some, Text, text_eq, nat_eq, codes,
  Result, ok, raise, if◌then◌else◌,
}
use alert_hub.Application.Rows.{Delivery, IncidentEvent, NotificationChannel}
use alert_hub.Application.Store.{Context, Store}
use alert_hub.Application.Notifications.Messages.{deterministic_delivery_id}
use alert_hub.Application.Notifications.Deliveries.{channel_of, delivery_of, get_event}
use alert_hub.Application.Notifications.Routes.{rank_of}
use alert_hub.Application.Notifications.Queue.{WorkerSettings}
use alert_hub.Application.Notifications.Ledger.{
  TargetDescriptor, TargetProgress, begin_delivery, finished, is_final,
}
use alert_hub.Application.Notifications.Outcome.{
  backlog_policy, defer_no_eligible_node, record_result, skip_historical_delivery,
}
use alert_hub.Application.Notifications.Provider.{Outside, provider_input, answer_of, after_call}

abbrev pub send_begun :
    WorkerSettings
    → Outside
    → Context
    → Text
    → TargetDescriptor
    → Option Delivery
    → Store
    → Store × Result TargetProgress
send_begun w out c event_id t none s = (s, ok (finished (some (codes "target_unavailable"))))
send_begun w out c event_id t (some d) s =
    if is_final d
    then (s, ok (finished d.error_code))
    else (let r = provider_input w out c event_id t s in
        record_result w (record c { now = out.finished_at }) d.id t (answer_of out r.1) d.attempt
          (after_call out r.1 r.0))

abbrev pub send_of :
    WorkerSettings
    → Outside
    → Context
    → Text
    → TargetDescriptor
    → Store
    → Result (Store × Option Delivery)
    → Store × Result TargetProgress
send_of w out c event_id t s (raise e) = (s, raise e)
send_of w out c event_id t s (ok r) = send_begun w out c event_id t r.1 r.0

unfoldable pub send_target :
    WorkerSettings
    → Outside
    → Context
    → Text
    → Text
    → TargetDescriptor
    → Store
    → Store × Result TargetProgress
unfolding answer_of begin_delivery
send_target w out c delivery_id event_id t s =
    send_of w out c event_id t s (begin_delivery c delivery_id event_id t s)

-- Once more after the pause, which the policy of an old event asks for.
abbrev pub send_or_skip :
    WorkerSettings
    → Outside
    → Context
    → Text
    → Text
    → TargetDescriptor
    → Option Text
    → Store
    → Store × Result TargetProgress
send_or_skip w out c delivery_id event_id t none s = send_target w out c delivery_id event_id t s
send_or_skip w out c delivery_id event_id t (some reason) s =
    skip_historical_delivery c delivery_id event_id t reason s

abbrev pub send_paced :
    WorkerSettings
    → Outside
    → Context
    → Text
    → Text
    → TargetDescriptor
    → Option Text × Bool
    → Store
    → Store × Result TargetProgress
send_paced w out c delivery_id event_id t (some reason, old) s =
    skip_historical_delivery c delivery_id event_id t reason s
send_paced w out c delivery_id event_id t (none, true) s =
    send_or_skip w out c delivery_id event_id t (backlog_policy w c.now event_id (out.paused s)).0
      (out.paused s)
send_paced w out c delivery_id event_id t (none, false) s =
    send_target w out c delivery_id event_id t s

abbrev pub await_owner : WorkerSettings → ℕ → TargetProgress
await_owner w now = record {
  terminal = false;
  available_at = some (now + max w.failover_base w.poll);
  error_code = some (codes "awaiting_owner_receipt");
}

-- The branches on the rank of this node: only rank zero sends.
abbrev pub send_ranked :
    WorkerSettings
    → Outside
    → Context
    → Text
    → Text
    → TargetDescriptor
    → Option ℕ × Bool
    → Store
    → Store × Result TargetProgress
send_ranked w out c delivery_id event_id t (rank, false) s =
    defer_no_eligible_node w c delivery_id event_id t s
send_ranked w out c delivery_id event_id t (none, true) s = (s, ok (finished none))
send_ranked w out c delivery_id event_id t (some (suc k), true) s = (s, ok (await_owner w c.now))
send_ranked w out c delivery_id event_id t (some zero, true) s =
    send_paced w out c delivery_id event_id t (backlog_policy w c.now event_id s) s

abbrev pub final_of : Option Delivery → Option Delivery
final_of none = none
final_of (some d) = if is_final d then some d else none

abbrev pub process_open :
    WorkerSettings
    → Outside
    → Context
    → IncidentEvent
    → NotificationChannel
    → TargetDescriptor
    → Text
    → Option Delivery
    → Store
    → Store × Result TargetProgress
process_open w out c e x t delivery_id (some d) s = (s, ok (finished d.error_code))
process_open w out c e x t delivery_id none s =
    send_ranked w out c delivery_id e.id t (rank_of c.rt c.node_id e.event_key x s) s

abbrev pub process_found :
    WorkerSettings
    → Outside
    → Context
    → TargetDescriptor
    → Option IncidentEvent
    → Option NotificationChannel
    → Store
    → Store × Result TargetProgress
process_found w out c t (some e) (some x) s =
    if x.enabled
    then (let delivery_id =
          deterministic_delivery_id c.rt e.event_key t.channel_id t.subscription_id in
        process_open w out c e x t delivery_id (final_of (delivery_of delivery_id s)) s)
    else (s, ok (finished (some (codes "target_unavailable"))))
process_found w out c t _ _ s = (s, ok (finished (some (codes "target_unavailable"))))

unfoldable pub process_target :
    WorkerSettings
    → Outside
    → Context
    → Text
    → TargetDescriptor
    → Store
    → Store × Result TargetProgress
unfolding deterministic_delivery_id rank_of defer_no_eligible_node send_target backlog_policy
process_target w out c event_id t s =
    process_found w out c t (get_event event_id s) (channel_of t.channel_id s) s
