-- ===== src/Application/Sync/Replay.antt =====
-- Receipts that were waiting: `_project_delivery_receipt` and `_replay_delivery_receipts`.
use alert_hub.Prelude.{
  Bool, true, false, not, ◌&&◌, ◌||◌, Option, none, some, is_some, is_none, List, [], ◌∷◌, Text,
  text_eq, ◌==◌, codes, keep, nonempty, Result, ok, ◌>>=◌, if◌then◌else◌,
}
use alert_hub.Runtime.{Fields, Runtime, get, or_value, str_or_empty}
use alert_hub.Application.Rows.{ClusterEvent}
use alert_hub.Application.Store.{Context, Store}
use alert_hub.Application.Notifications.Receipts.{apply_delivery_receipt}
use alert_hub.Application.Notifications.Deliveries.{channel_of, subscription_of}

abbrev pub can_project : Runtime → Fields → Store → Bool
can_project rt payload s =
    let channel_id = str_or_empty rt (get (codes "channel_id") payload) in
    let subscription_id = str_or_empty rt (get (codes "subscription_id") payload) in
    nonempty channel_id
    && (is_some (channel_of channel_id s)
        && (not (nonempty subscription_id) || is_some (subscription_of subscription_id s)))

unfoldable pub project_delivery_receipt : Context → ClusterEvent → Store → Result Store
unfolding str_or_empty
project_delivery_receipt c e s =
    if can_project c.rt e.payload s
    then (apply_delivery_receipt c e.payload s >>= λ r. ok r.0)
    else ok s

-- What the receipts that are replayed have in common; `none` asks for nothing.
pub record Wanted : Type 0 where
  pub event_id : Option Text
  pub event_key : Option Text
  pub channel_id : Option Text
  pub subscription_id : Option Text

-- `wanted is not None and wanted == found`
abbrev pub equals_wanted : Option Text → Text → Bool
equals_wanted none found = false
equals_wanted (some w) found = found == w

abbrev pub allows : Option Text → Text → Bool
allows none found = true
allows (some w) found = found == w

unfoldable pub is_wanted : Runtime → Wanted → ClusterEvent → Bool
unfolding str_or_empty
is_wanted rt w e =
    let id =
      str_or_empty rt
        (or_value (get (codes "event_id") e.payload) (get (codes "source_event_id") e.payload)) in
    let key = str_or_empty rt (get (codes "source_event_key") e.payload) in
    ((is_none w.event_id && is_none w.event_key)
      || (equals_wanted w.event_id id || equals_wanted w.event_key key))
    && (allows w.channel_id (str_or_empty rt (get (codes "channel_id") e.payload))
        && allows w.subscription_id (str_or_empty rt (get (codes "subscription_id") e.payload)))

abbrev pub of_type : Text → ClusterEvent → Bool
of_type entity_type e = e.entity_type == entity_type

-- The loop over the receipts.
unfoldable pub replay : Context → Wanted → List ClusterEvent → Store → Result Store
unfolding is_wanted project_delivery_receipt
replay c w [] s = ok s
replay c w (e ∷ es) s =
    (if is_wanted c.rt w e then project_delivery_receipt c e s else ok s) >>= λ s'. replay c w es s'

unfoldable pub replay_delivery_receipts : Context → Wanted → Store → Result Store
unfolding replay
replay_delivery_receipts c w s =
    replay c w (keep (of_type (codes "delivery_receipt")) s.cluster_events) s
