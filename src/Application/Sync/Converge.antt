-- ===== src/Application/Sync/Converge.antt =====
-- The order in which the events of a history arrive does not matter, and a revocation is final.
use mathlib.Core.Path.{subst}
use mathlib.Core.List.Permᴰ
use alert_hub.Prelude.{
  ℕ, ◌≡◌, ◌≤◌, refl, sym, ap, ◌∙◌, Bool, Option, none, some, List, [], ◌∷◌, Text, text_eq, keep,
  last?, codes, ltb, arith, Memᴰ, Permᴰ, Bool-cases, inl, inr, ok, ok_injective, >>=-eq-ok,
}
use alert_hub.Prelude.Sort.{sort_by, sort_by-perm, sort_by-perm_eq}
use alert_hub.Prelude.Permuted.{keep-perm, mem_perm, mem_of_keep}
use alert_hub.Runtime.{Runtime}
use alert_hub.Domain.Events.Defs.{key_order}
use alert_hub.Application.Rows.{AuthSession, ClusterEvent}
use alert_hub.Application.Store.{Store}
use alert_hub.Application.Sync.History.{
  Merged, earlier, entity_events, event_order, history, payload_datetime, merge, nothing_merged,
  of_entity, revocation,
}
use alert_hub.Application.Sync.Sessions.{
  is_revocation, session_of_history, session_of_merged, session_row, timed_session, is_session,
  session_with_times,
}

-- An event is known by its time and its id.
abbrev pub Identified : List ClusterEvent → Type 0
Identified es = (a b : ClusterEvent) → Memᴰ a es → Memᴰ b es → event_order a ≡ event_order b → a ≡ b

entity_events-perm :
    (t i : Text) {xs ys : List ClusterEvent}
    → Permᴰ xs ys
    → Identified xs
    → sort_by key_order event_order (keep (of_entity t i) xs)
      ≡ sort_by key_order event_order (keep (of_entity t i) ys)
entity_events-perm t i {xs} {ys} p known =
    sort_by-perm_eq key_order event_order (keep (of_entity t i) xs) (keep (of_entity t i) ys)
      (λ a b m n. known a b (mem_of_keep (of_entity t i) xs m) (mem_of_keep (of_entity t i) xs n))
      (keep-perm (of_entity t i) p)

session_of_history-store :
    (rt : Runtime) (i : Text) (events : List ClusterEvent) (o : Option ClusterEvent) (s : Store)
    (es : List ClusterEvent)
    → session_of_history rt i events o s
      ≡ session_of_history rt i events o (record s { cluster_events = es })
unfolding session_of_merged session_with_times
session_of_history-store rt i events none s es = refl
session_of_history-store rt i events (some e) s es = refl

-- Two nodes that hold the same cluster events in any order, each known by its time and its id, and
-- otherwise the same store, project the same row of a session, or the same error.
pub session_row-perm :
    (rt : Runtime) (i : Text) (s : Store) (es : List ClusterEvent)
    → Permᴰ s.cluster_events es
    → Identified s.cluster_events
    → session_row rt i s ≡ session_row rt i (record s { cluster_events = es })
unfolding session_row history session_of_merged
session_row-perm rt i s es p known =
    ap (λ events. session_of_history rt i events (last? events) s)
      (entity_events-perm (codes "session") i p known)
    ∙ session_of_history-store rt i (history (codes "session") i (record s { cluster_events = es }))
        (last? (history (codes "session") i (record s { cluster_events = es }))) s es

-- The revocation that was found is kept, or an earlier one is.
abbrev pub RevokedBy : ℕ → Option ℕ → Type 0
RevokedBy t r = (u : ℕ) × (r ≡ some u) × (u ≤ t)

earlier-RevokedBy : (t : ℕ) (o r : Option ℕ) → RevokedBy t r → RevokedBy t (earlier o r)
earlier-RevokedBy t none r h = h
earlier-RevokedBy t (some v) none (u, same, below) = cc
earlier-RevokedBy t (some v) (some w) (u, same, below) = elim (Bool-cases (ltb v w)) [
  | inl first ↦ rw first (v, refl, ground (arith, first, same, below))
  | inr later ↦ rw later (u, same, below)
]

merge-RevokedBy :
    (rt : Runtime) (test : ClusterEvent → Bool) (es : List ClusterEvent) (m : Merged) {n : Merged}
    (t : ℕ)
    → merge rt test es m ≡ ok n
    → RevokedBy t m.revoked_at
    → RevokedBy t n.revoked_at
unfolding merge
merge-RevokedBy rt test [] m t h r =
    subst (λ (q : Merged). RevokedBy t q.revoked_at) (ok_injective m _ h) r
merge-RevokedBy rt test (e ∷ es) m {n} t h r =
    let (o, called, rest) = >>=-eq-ok (revocation rt test e) _ h in
    merge-RevokedBy rt test es _ t rest (earlier-RevokedBy t o m.revoked_at r)

earlier-candidate : (t : ℕ) (r : Option ℕ) → RevokedBy t (earlier (some t) r)
earlier-candidate t none = (t, refl, omega arith)
earlier-candidate t (some w) = elim (Bool-cases (ltb t w)) [
  | inl first ↦ rw first (t, refl, omega arith)
  | inr later ↦ rw later (w, refl, ground (arith, later))
]

merge-of_mem :
    (rt : Runtime) (test : ClusterEvent → Bool) (es : List ClusterEvent) (m : Merged) {n : Merged}
    (t : ℕ) (e : ClusterEvent)
    → merge rt test es m ≡ ok n
    → Memᴰ e es
    → revocation rt test e ≡ ok (some t)
    → RevokedBy t n.revoked_at
unfolding merge
merge-of_mem rt test [] m t e h at r = elim at [ ]
merge-of_mem rt test (f ∷ es) m {n} t e h (Memᴰ.head same) r =
    let (o, called, rest) = >>=-eq-ok (revocation rt test f) _ h in
    let is_t = ok_injective o (some t) (sym called ∙ ap (revocation rt test) (sym same) ∙ r) in
    merge-RevokedBy rt test es _ t rest (
      subst (λ q. RevokedBy t (earlier q m.revoked_at)) (sym is_t)
        (earlier-candidate t m.revoked_at))
merge-of_mem rt test (f ∷ es) m {n} t e h (Memᴰ.tail at) r =
    let (o, called, rest) = >>=-eq-ok (revocation rt test f) _ h in
    merge-of_mem rt test es _ t e rest at r

timed_session-revoked :
    (rt : Runtime) (i : Text) (m : Merged) (p q r o : Option ℕ) (taken : Bool)
    (old : Option AuthSession) {a : AuthSession}
    → timed_session rt i m p q r o taken old ≡ ok (some a)
    → a.revoked_at ≡ m.revoked_at
timed_session-revoked rt i m (some p) (some q) (some r) (some o) taken old h = ground (arith, h)
timed_session-revoked rt i m none q r o taken old h = ground (arith, h)
timed_session-revoked rt i m (some p) none r o taken old h = ground (arith, h)
timed_session-revoked rt i m (some p) (some q) none o taken old h = ground (arith, h)
timed_session-revoked rt i m (some p) (some q) (some r) none taken old h = ground (arith, h)

session_with_times-revoked :
    (rt : Runtime) (i : Text) (m : Merged) (e : ClusterEvent) (s : Store) {a : AuthSession}
    → session_with_times rt i m e s ≡ ok (some a)
    → a.revoked_at ≡ m.revoked_at
unfolding session_with_times
session_with_times-revoked rt i m e s h =
    let (p, called, h1) =
      >>=-eq-ok (payload_datetime rt (codes "created_at") (some e.occurred_at) m.state) _ h in
    let (q, called1, h2) = >>=-eq-ok (payload_datetime rt (codes "last_used_at") p m.state) _ h1 in
    let (r, called2, h3) = >>=-eq-ok (payload_datetime rt (codes "expires_at") q m.state) _ h2 in
    let (o, called3, h4) =
      >>=-eq-ok (payload_datetime rt (codes "absolute_expires_at") r m.state) _ h3 in
    timed_session-revoked rt i m p q r o _ _ h4

session_of_merged-revoked :
    (rt : Runtime) (i : Text) (m : Merged) (e : ClusterEvent) (s : Store) {a : AuthSession}
    → session_of_merged rt i m e s ≡ ok (some a)
    → a.revoked_at ≡ m.revoked_at
unfolding session_of_merged
session_of_merged-revoked rt i m e s {a} h = elim (Bool-cases (is_session rt m s)) [
  | inl named ↦ session_with_times-revoked rt i m e s {a = a} (ground (arith, h, named))
  | inr unnamed ↦ ground (arith, h, unnamed)
]

session_of_history-RevokedBy :
    (rt : Runtime) (i : Text) (events : List ClusterEvent) (o : Option ClusterEvent) (s : Store)
    {a : AuthSession} (e : ClusterEvent) (t : ℕ)
    → session_of_history rt i events o s ≡ ok (some a)
    → Memᴰ e events
    → revocation rt is_revocation e ≡ ok (some t)
    → RevokedBy t a.revoked_at
session_of_history-RevokedBy rt i events none s e t h at r = ground (arith, h)
session_of_history-RevokedBy rt i events (some f) s e t h at r =
    let (m, merged, rest) = >>=-eq-ok (merge rt is_revocation events nothing_merged) _ h in
    subst (RevokedBy t) (sym (session_of_merged-revoked rt i m f s rest))
      (merge-of_mem rt is_revocation events nothing_merged t e merged at r)

-- When a session is projected, an event of its history that revokes it, at whatever time it arrived
-- and whatever the other events say, leaves it revoked since the time that the event tells or earlier.
pub session_row-RevokedBy :
    (rt : Runtime) (i : Text) (s : Store) {a : AuthSession} (e : ClusterEvent) (t : ℕ)
    → session_row rt i s ≡ ok (some a)
    → Memᴰ e (entity_events (codes "session") i s)
    → revocation rt is_revocation e ≡ ok (some t)
    → RevokedBy t a.revoked_at
unfolding session_row history
session_row-RevokedBy rt i s e t h at r =
    let events = history (codes "session") i s in
    session_of_history-RevokedBy rt i events (last? events) s e t h
      (mem_perm
        (Permᴰ.symm (sort_by-perm key_order event_order (entity_events (codes "session") i s))) at)
      r
