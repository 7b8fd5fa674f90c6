-- ===== src/Application/Sync/Removal.antt =====
-- A push subscription that was removed is never enabled again.
use mathlib.Core.Path.{subst}
use alert_hub.Prelude.{
  ℕ, ◌≡◌, refl, Bool, true, ◌||◌, Option, none, some, is_some, List, [], ◌∷◌, Text, text_eq, any,
  keep, nonempty, codes, arith, Bool-cases, inl, inr, Result, ok, raise, ok_injective, >>=-eq-ok,
}
use alert_hub.Runtime.{Value, Fields, Runtime, get, str_or_empty, str_or_none}
use alert_hub.Runtime.Value.{null, boolean, number, text, datetime, array, object}
use alert_hub.Application.Rows.{AuthSession, ClusterEvent, PushSubscription}
use alert_hub.Application.Store.{Store}
use alert_hub.Application.Sync.History.{
  datetime_or, time_of, entity_events, is_tombstone, payload_datetime, payload_time,
}
use alert_hub.Application.Sync.Registration.{
  Endpoint, configuration, decoded, disabled_time, earliest, effective, is_bound, is_state_event,
  removal_time, removes, or_time, last_success,
}
use alert_hub.Application.Sync.Push.{
  can_subscribe, configured_row, push_row, row_of_history, subscription_row, linked_session,
}

earliest-nonempty : (es : List ClusterEvent) → nonempty es ≡ true → is_some (earliest es) ≡ true
unfolding earliest
earliest-nonempty [] h = cc
earliest-nonempty (e ∷ es) h = refl

time_of-some : (r : Result ℕ) (t : ℕ) → is_some (time_of (some t) r) ≡ true
time_of-some (ok u) t = refl
time_of-some (raise e) t = refl

datetime_or-some :
    (rt : Runtime) (t : ℕ) (v : Value) {o : Option ℕ}
    → datetime_or rt (some t) v ≡ ok o
    → is_some o ≡ true
datetime_or-some rt t null h = ground (arith, h)
datetime_or-some rt t (text []) h = ground (arith, h)
datetime_or-some rt t (array vs) h = cc
datetime_or-some rt t (object fs) h = cc
datetime_or-some rt t (text (x ∷ s)) h =
    subst (λ (q : Option ℕ). is_some q ≡ true) (ok_injective _ _ h) (time_of-some _ t)
datetime_or-some rt t (boolean b) h =
    subst (λ (q : Option ℕ). is_some q ≡ true) (ok_injective _ _ h) (time_of-some _ t)
datetime_or-some rt t (number n) h =
    subst (λ (q : Option ℕ). is_some q ≡ true) (ok_injective _ _ h) (time_of-some _ t)
datetime_or-some rt t (datetime d) h =
    subst (λ (q : Option ℕ). is_some q ≡ true) (ok_injective _ _ h) (time_of-some _ t)

-- With a default, a time is always told.
payload_datetime-some :
    (rt : Runtime) (name : Text) (t : ℕ) (payload : Fields) {o : Option ℕ}
    → payload_datetime rt name (some t) payload ≡ ok o
    → is_some o ≡ true
unfolding payload_datetime
payload_datetime-some rt name t payload h = datetime_or-some rt t (get name payload) h

removal_time-some :
    (rt : Runtime) (e : Option ClusterEvent) {o : Option ℕ}
    → is_some e ≡ true
    → removal_time rt e ≡ ok o
    → is_some o ≡ true
removal_time-some rt none there h = cc
removal_time-some rt (some e) there h =
    payload_datetime-some rt (codes "disabled_at") e.occurred_at e.payload h

or_time-some : (a b : Option ℕ) → is_some a ≡ true → is_some (or_time a b) ≡ true
or_time-some none b h = cc
or_time-some (some t) b h = refl

disabled_time-some :
    (rt : Runtime) (events : List ClusterEvent) (e : ClusterEvent) (i : Option Text)
    (a : Option AuthSession) {o : Option ℕ}
    → nonempty (keep removes (effective events)) ≡ true
    → disabled_time rt events e i a ≡ ok o
    → is_some o ≡ true
unfolding disabled_time
disabled_time-some rt events e i a removed h =
    let (t, called, done) =
      >>=-eq-ok (removal_time rt (earliest (keep removes (effective events)))) _ h in
    let there =
      removal_time-some rt _ (earliest-nonempty (keep removes (effective events)) removed) called in
    subst (λ (q : Option ℕ). is_some q ≡ true) (ok_injective _ _ done)
      (or_time-some _ _ (or_time-some _ _ there))

-- A tombstone counts among the effective events, bound or not.
keep_mem_nonempty :
    (p : ClusterEvent → Bool) (es : List ClusterEvent)
    → any p es ≡ true
    → nonempty (keep p es) ≡ true
keep_mem_nonempty p [] h = cc
keep_mem_nonempty p (e ∷ es) h = ground (arith, h, keep_mem_nonempty p es)

keep-keep_tombstone :
    (q : ClusterEvent → Bool) (es : List ClusterEvent)
    → any is_tombstone es ≡ true
    → nonempty (keep removes (keep (λ e. is_tombstone e || q e) es)) ≡ true
keep-keep_tombstone q [] h = cc
keep-keep_tombstone q (e ∷ es) h = ground (arith, h, keep-keep_tombstone q es)

any_tombstone_removes :
    (es : List ClusterEvent) → any is_tombstone es ≡ true → any removes es ≡ true
any_tombstone_removes [] h = cc
any_tombstone_removes (e ∷ es) h = ground (arith, h, any_tombstone_removes es)

effective-removed :
    (es : List ClusterEvent)
    → any is_tombstone es ≡ true
    → nonempty (keep removes (effective es)) ≡ true
unfolding effective
effective-removed es h = elim (Bool-cases (nonempty (keep is_bound es))) [
  | inl bound ↦ rw bound (keep-keep_tombstone is_bound es h)
  | inr free ↦ rw free (keep_mem_nonempty removes es (any_tombstone_removes es h))
]

subscription_row-disabled :
    (rt : Runtime) (i : Text) (events : List ClusterEvent) (e : ClusterEvent) (u : Text)
    (k : Endpoint) (s : Store) {p : PushSubscription}
    → any is_tombstone (keep is_state_event events) ≡ true
    → subscription_row rt i events e u k s ≡ ok p
    → is_some p.disabled_at ≡ true
unfolding subscription_row
subscription_row-disabled rt i events e u k s removed h =
    let session_id = str_or_none rt (get (codes "session_id") e.payload) in
    let (created, called, h1) = >>=-eq-ok (payload_time rt (codes "created_at") e) _ h in
    let (last, called1, h2) = >>=-eq-ok (last_success rt events none) _ h1 in
    let (t, called2, done) =
      >>=-eq-ok
        (disabled_time rt (keep is_state_event events) e session_id (linked_session session_id s)) _
        h2 in
    subst (λ (q : PushSubscription). is_some q.disabled_at ≡ true) (ok_injective _ _ done)
      (disabled_time-some rt (keep is_state_event events) e session_id (linked_session session_id s)
        (effective-removed (keep is_state_event events) removed) called2)

some_injective : {A : Type 0} {a b : A} → ◌≡◌ {A = Option A} (some a) (some b) → a ≡ b
some_injective h = cc

configured_row-disabled :
    (rt : Runtime) (i : Text) (events : List ClusterEvent) (e : ClusterEvent) (k : Option Endpoint)
    (s : Store) {p : PushSubscription}
    → any is_tombstone (keep is_state_event events) ≡ true
    → configured_row rt i events e k s ≡ ok (some p)
    → is_some p.disabled_at ≡ true
configured_row-disabled rt i events e none s removed h = ground (arith, h)
configured_row-disabled rt i events e (some k) s {p} removed h =
    elim (Bool-cases (can_subscribe rt e s)) [
      | inl can ↦
          let user_id = str_or_empty rt (get (codes "user_id") e.payload) in
          let (q, called, done) =
            >>=-eq-ok (subscription_row rt i events e user_id k s) (λ p. ok (some p)) {y = some p}
              (ground (arith, h, can)) in
          subst (λ (q : PushSubscription). is_some q.disabled_at ≡ true)
            (some_injective (ok_injective _ _ done))
            (subscription_row-disabled rt i events e user_id k s removed called)
      | inr cannot ↦ ground (arith, h, cannot)
    ]

row_of_history-disabled :
    (rt : Runtime) (i : Text) (events : List ClusterEvent) (e : Option ClusterEvent) (s : Store)
    {p : PushSubscription}
    → any is_tombstone (keep is_state_event events) ≡ true
    → row_of_history rt i events e s ≡ ok (some p)
    → is_some p.disabled_at ≡ true
row_of_history-disabled rt i events none s removed h = ground (arith, h)
row_of_history-disabled rt i events (some e) s removed h =
    configured_row-disabled rt i events e (decoded rt e.payload) s removed h

tombstones_are_state :
    (es : List ClusterEvent)
    → any is_tombstone es ≡ true
    → any is_tombstone (keep is_state_event es) ≡ true
tombstones_are_state [] h = cc
tombstones_are_state (e ∷ es) h = ground (arith, h, tombstones_are_state es)

-- Once the history of a push subscription holds a tombstone, every row that is projected from it is
-- disabled, whatever events came before it or after it, in whatever order they arrived, and whatever
-- the row was.
pub push_row-disabled :
    (rt : Runtime) (i : Text) (s : Store) {p : PushSubscription}
    → any is_tombstone (entity_events (codes "push_subscription") i s) ≡ true
    → push_row rt i s ≡ ok (some p)
    → is_some p.disabled_at ≡ true
unfolding push_row
push_row-disabled rt i s removed h =
    let events = entity_events (codes "push_subscription") i s in
    row_of_history-disabled rt i events (configuration (keep is_state_event events)) s
      (tombstones_are_state events removed) h
