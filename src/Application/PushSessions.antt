-- ===== src/Application/PushSessions.antt =====
-- Push subscriptions and the sessions that they belong to, of backend/alert_hub/application/auth.py.
use alert_hub.Prelude.{
  ℕ, Bool, true, false, not, ◌&&◌, Option, none, some, is_some, is_none, List, [], ◌∷◌, Text,
  text_eq, ◌==◌, codes, contains, keep, map, leb, or_else, if◌then◌else◌,
}
use alert_hub.Prelude.Order.{text_order}
use alert_hub.Prelude.Sort.{sort_by}
use alert_hub.Application.Rows.{AuthSession, PushSubscription, User}
use alert_hub.Application.Store.{Context, Store, append_cluster_event}
use alert_hub.Application.Notifications.Messages.{push_subscription_payload}
use alert_hub.Application.Notifications.Deliveries.{save_subscription, subscription_of}
use alert_hub.Application.Sync.History.{tombstone}
use alert_hub.Application.Sync.Registration.{session_of, user_of}

pub data PushState : Type 0 where
  active owner_unavailable legacy_unbound session_unavailable revoked absolute_expired : PushState
  sliding_expired : PushState

-- The session, as the subscription's.
unfoldable pub session_state : PushSubscription → ℕ → Option AuthSession → PushState
session_state p now none = session_unavailable
session_state p now (some a) =
    if not (a.user_id == p.user_id)
    then session_unavailable
    else if is_some a.revoked_at
    then revoked
    else if leb a.absolute_expires_at now
    then absolute_expired
    else if leb a.expires_at now
    then sliding_expired
    else active

abbrev pub bound_state : PushSubscription → ℕ → Option Text → Store → PushState
bound_state p now none s = legacy_unbound
bound_state p now (some i) s = session_state p now (session_of i s)

abbrev pub owner_state : PushSubscription → ℕ → Option User → Store → PushState
owner_state p now none s = owner_unavailable
owner_state p now (some u) s =
    if is_some u.disabled_at then owner_unavailable else bound_state p now p.session_id s

unfoldable pub push_subscription_session_state : PushSubscription → ℕ → Store → PushState
unfolding session_state
push_subscription_session_state p now s = owner_state p now (user_of p.user_id s) s

abbrev pub is_active : PushState → Bool
is_active active = true
is_active _ = false

abbrev pub requires_tombstone : PushState → Bool
requires_tombstone active = false
requires_tombstone sliding_expired = false
requires_tombstone _ = true

unfoldable pub disable_push_subscription :
    Context → PushSubscription → Option ℕ → Store → Store × Bool
unfolding push_subscription_payload
disable_push_subscription c p disabled_at s =
    let q = record p { disabled_at = some (or_else disabled_at c.now) } in
    if is_some p.disabled_at then (s, false) else (
      (append_cluster_event c (codes "push_subscription") p.id tombstone
          (push_subscription_payload c.rt q) c.now none (save_subscription q s)).0,
      true,
    )

unfoldable pub disable_all : Context → List PushSubscription → Option ℕ → Store → Store
unfolding disable_push_subscription
disable_all c [] disabled_at s = s
disable_all c (p ∷ ps) disabled_at s =
    disable_all c ps disabled_at (disable_push_subscription c p disabled_at s).0

abbrev pub is_of_session : Text → PushSubscription → Bool
is_of_session session_id p = or_else p.session_id [] == session_id && is_some p.session_id

abbrev pub is_enabled : PushSubscription → Bool
is_enabled p = is_none p.disabled_at

unfoldable pub disable_session_push_subscriptions :
    Context → Text → Option ℕ → Store → Store × List Text
unfolding disable_all
disable_session_push_subscriptions c session_id disabled_at s =
    let subscriptions = keep (λ p. is_of_session session_id p && is_enabled p) s.subscriptions in
    (disable_all c subscriptions disabled_at s, map (λ (p : PushSubscription). p.id) subscriptions)

-- The row as it is by now: it may have been disabled with its session.
abbrev pub disable_current : Context → Option PushSubscription → Option ℕ → Store → Store
disable_current c none disabled_at s = s
disable_current c (some p) disabled_at s = (disable_push_subscription c p disabled_at s).0

-- What is done with a subscription that cannot receive any more, and the sessions done so far.
unfoldable pub retire :
    Context → PushSubscription → ℕ → List Text → Option Text → Store → Store × List Text
unfolding disable_session_push_subscriptions disable_push_subscription
retire c p now done none s = (disable_current c (subscription_of p.id s) (some now) s, done)
retire c p now done (some i) s =
    if contains i done
    then (s, done)
    else ((disable_session_push_subscriptions c i (some now) s).0, i ∷ done)

-- The loop over the candidates.
unfoldable pub select_eligible :
    Context → ℕ → List PushSubscription → List Text → Store → Store × List PushSubscription
unfolding push_subscription_session_state retire
select_eligible c now [] done s = (s, [])
select_eligible c now (p ∷ ps) done s =
    let state = push_subscription_session_state p now s in
    let retired =
      if requires_tombstone state then retire c p now done p.session_id s else (s, done) in
    let rest = select_eligible c now ps retired.1 retired.0 in
    if is_active state then (rest.0, p ∷ rest.1) else rest

unfoldable pub eligible_push_subscriptions : Context → ℕ → Store → Store × List PushSubscription
unfolding select_eligible sort_by
eligible_push_subscriptions c now s =
    select_eligible c now
      (sort_by text_order (λ (p : PushSubscription). p.id) (keep is_enabled s.subscriptions)) [] s
