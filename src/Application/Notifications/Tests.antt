-- ===== src/Application/Notifications/Tests.antt =====
-- The theorems on deliveries at concrete inputs.
use alert_hub.Prelude.{
  ◌≡◌, ◌≤◌, refl, true, false, some, none, List, [], ◌∷◌, Text, text_eq, text_beq, codes, all, not,
  contains, length, arith, ok, Result,
}
use alert_hub.Toy.{toy, or_default, is_ok, ok_of_default}
use alert_hub.Runtime.{Fields, get, py_str}
use alert_hub.Runtime.Fields.{end}
use alert_hub.Domain.Time.{replace_z}
use alert_hub.Domain.Events.Defs.{EventType}
use alert_hub.Application.Rows.{Delivery, IncidentEvent, NotificationChannel, OutboxItem}
use alert_hub.Application.Store.{Store, append_cluster_event}
use alert_hub.Application.TestData.{context, store}
use alert_hub.Application.Notifications.Messages.{delivery_receipt_payload}
use alert_hub.Application.Notifications.Receipts.{
  apply_delivery_receipt, apply_known_receipt, receive,
}
use alert_hub.Application.Notifications.Deliveries.{delivery_of, succeeded_status}
use alert_hub.Application.Notifications.Receive.{Keeps, apply_delivery_receipt-Keeps}
use alert_hub.Application.Notifications.RoundTrip.{
  ReadsTimes, apply_delivery_receipt-payload, replica,
}
use alert_hub.Application.Notifications.Queue.{WorkerSettings, claim_batch}
use alert_hub.Application.Notifications.Claims.{claim_batch-once}
use alert_hub.Application.Notifications.Ledger.{
  DeliveryOutcome, DeliveryResult, TargetDescriptor, TargetProgress, finished,
}
use alert_hub.Application.Notifications.Outcome.{is_retryable, record_result}
use alert_hub.Application.Notifications.Retries.{IsRetry, record_result-IsRetry}

abbrev channel : NotificationChannel
channel = record {
  id = codes "c";
  name = codes "mail";
  kind = codes "smtp";
  enabled = true;
  encrypted_config = [];
  eligible_nodes_or_regions = end;
  created_at = 0;
  deleted_at = none;
}

abbrev fired : IncidentEvent
fired = record {
  id = codes "e";
  origin_node_id = codes "n";
  origin_seq = 1;
  event_key = codes "k";
  incident_id = codes "i";
  event_type = EventType.firing;
  occurred_at = 3;
  received_at = 3;
  payload = end;
}

abbrev delivery : Text → Delivery
delivery status = record {
  id = codes "d";
  event_id = codes "e";
  channel_id = codes "c";
  subscription_id = none;
  owner_node_id = codes "n";
  attempt = 2;
  status = status;
  provider_status = some (codes "250");
  error_code = none;
  created_at = 4;
  finished_at = some 5;
}

abbrev with_deliveries : List Delivery → Store
with_deliveries ds = record store {
  incident_events = fired ∷ [];
  channels = channel ∷ [];
  deliveries = ds;
}

-- A failure that another node reports of a delivery that succeeded here.
abbrev late_failure : Fields
late_failure = delivery_receipt_payload toy (delivery (codes "failed")) (codes "k")

abbrev after_failure : Store
after_failure =
    (or_default (store, false)
      (apply_delivery_receipt (context 9) late_failure
        (with_deliveries (delivery succeeded_status ∷ [])))).0

after_failure_ok :
    is_ok (
      apply_delivery_receipt
        (context 9)
        late_failure
        (with_deliveries (delivery succeeded_status ∷ [])))
    ≡ true
unfolding apply_delivery_receipt delivery_receipt_payload get text_beq apply_known_receipt
after_failure_ok = refl

apply_delivery_receipt-Keeps_example : Keeps (codes "d") (delivery succeeded_status) after_failure
unfolding text_beq
apply_delivery_receipt-Keeps_example =
    apply_delivery_receipt-Keeps (context 9) late_failure
      (with_deliveries (delivery succeeded_status ∷ []))
      (ok_of_default (store, false)
        (apply_delivery_receipt (context 9) late_failure
          (with_deliveries (delivery succeeded_status ∷ [])))
        after_failure_ok)
      (codes "d") (delivery succeeded_status) refl refl

toy-ReadsTimes : ReadsTimes toy
unfolding replace_z py_str
toy-ReadsTimes t = ground arith

apply_delivery_receipt-payload_example :
    (t : Store) × (apply_delivery_receipt
        (context 9)
        (delivery_receipt_payload toy (delivery succeeded_status) (codes "k"))
        (with_deliveries [])
      ≡ ok (t, true))
    × (delivery_of (codes "d") t ≡ some (replica (context 9) fired (delivery succeeded_status)))
unfolding text_beq py_str
apply_delivery_receipt-payload_example =
    apply_delivery_receipt-payload (context 9) (delivery succeeded_status) (codes "k") fired
      (with_deliveries []) refl refl refl refl toy-ReadsTimes refl refl refl

abbrev settings : WorkerSettings
settings = record {
  retry_base = 5;
  retry_max = 60;
  lock = 10;
  batch_size = 2;
  max_attempts = 3;
  failover_base = 7;
  poll = 1;
  backlog_age = 100;
  public_url = none;
  app_name = codes "hub";
}

abbrev waiting : Text → OutboxItem
waiting i = record {
  id = i;
  event_id = i;
  incident_id = codes "i";
  available_at = 4;
  attempt = 0;
  locked_at = none;
  completed_at = none;
  last_error = none;
}

abbrev queue : Store
queue = record store {
  outbox = waiting (codes "a") ∷ waiting (codes "b") ∷ waiting (codes "c") ∷ [];
}

claim_batch-once_example :
    let first = claim_batch settings 6 queue in
    (length (first.1) ≤ 2)
    × (all (λ i. not (contains i first.1)) (claim_batch settings 16 first.0).1 ≡ true)
claim_batch-once_example = claim_batch-once settings 6 16 queue (omega arith)

abbrev target : TargetDescriptor
target = record { channel_id = codes "c"; subscription_id = none }

abbrev refused : DeliveryResult
refused = record {
  outcome = DeliveryOutcome.retryable;
  provider_status = none;
  error_code = some (codes "busy");
}

abbrev tried : Store × Result TargetProgress
tried =
    record_result settings (context 9) (codes "d") target refused 2
      (with_deliveries (delivery (codes "sending") ∷ []))

abbrev again : TargetProgress
again = or_default (finished none) tried.1

tried_ok : is_ok tried.1 ≡ true
unfolding record_result text_beq get append_cluster_event apply_known_receipt receive
tried_ok = refl

again_open : again.terminal ≡ false
unfolding record_result text_beq get append_cluster_event apply_known_receipt receive
again_open = refl

record_result-IsRetry_example : (is_retryable refused.outcome ≡ true) × IsRetry settings 9 2 again
record_result-IsRetry_example =
    record_result-IsRetry settings (context 9) (codes "d") target refused 2
      (with_deliveries (delivery (codes "sending") ∷ []))
      (ok_of_default (finished none) tried.1 tried_ok) again_open
