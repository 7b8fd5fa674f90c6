-- ===== src/Application/Sync/Again.antt =====
-- `apply_cluster_events` a second time with the same page.
use mathlib.Core.Path.{subst}
use alert_hub.Prelude.{
  ◌≡◌, refl, sym, Bool, true, List, [], ◌∷◌, text_eq, nat_eq, text_beq_iff, all, length, arith,
  Bool-cases, inl, inr, ok, if◌then◌else◌,
}
use alert_hub.Application.Store.{Context, Store}
use alert_hub.Application.Sync.Apply.{
  IncomingClusterEvent, add_cluster_event, apply_cluster_events, is_known, is_same, record_events,
  stored,
}

-- Every event of the page is one that the store has.
abbrev pub all_known : List IncomingClusterEvent → Store → Bool
all_known is s = all (λ i. is_known i s) is

-- An event that is known stays known as events are added.
record_events-is_known :
    (j : IncomingClusterEvent) (is : List IncomingClusterEvent) (s : Store)
    → is_known j s ≡ true
    → is_known j (record_events is s).store ≡ true
unfolding record_events
record_events-is_known j [] s h = h
record_events-is_known j (i ∷ is) s h = elim (Bool-cases (is_known i s)) [
  | inl known ↦ rw known (record_events-is_known j is s h)
  | inr new ↦
      rw new (record_events-is_known j is (add_cluster_event (stored i) s) (ground (arith, h)))
]

-- An event is the same as the row that it is stored as.
is_same-stored : (i : IncomingClusterEvent) → is_same i (stored i) ≡ true
is_same-stored i = ground (arith, text_beq_iff i.event_id i.event_id)

-- The store after the first event of a page.
abbrev pub next_store : IncomingClusterEvent → Store → Store
next_store i s = if is_known i s then s else add_cluster_event (stored i) s

record_events-store :
    (i : IncomingClusterEvent) (is : List IncomingClusterEvent) (s : Store)
    → (record_events (i ∷ is) s).store ≡ (record_events is (next_store i s)).store
unfolding record_events
record_events-store i is s = elim (Bool-cases (is_known i s)) [
  | inl known ↦ rw known refl
  | inr new ↦ rw new refl
]

is_known-next_store : (i : IncomingClusterEvent) (s : Store) → is_known i (next_store i s) ≡ true
is_known-next_store i s = elim (Bool-cases (is_known i s)) [
  | inl known ↦ rw known known
  | inr new ↦ rw new (ground (arith, is_same-stored i))
]

record_events-all_known :
    (is : List IncomingClusterEvent) (s : Store) → all_known is (record_events is s).store ≡ true
record_events-all_known [] s = refl
record_events-all_known (i ∷ is) s =
    subst (λ t. all_known (i ∷ is) t ≡ true) (sym (record_events-store i is s))
      (ground (
        arith,
        record_events-is_known i is (next_store i s) (is_known-next_store i s),
        record_events-all_known is (next_store i s),
      ))

-- A page of events that are all known adds none.
record_events-known :
    (is : List IncomingClusterEvent) (s : Store)
    → all_known is s ≡ true
    → record_events is s ≡ record { store = s; applied = []; duplicates = length is }
unfolding record_events
record_events-known [] s h = refl
record_events-known (i ∷ is) s h = ground (arith, h, record_events-known is s)

apply_cluster_events-known :
    (c : Context) (is : List IncomingClusterEvent) (s : Store)
    → all_known is s ≡ true
    → apply_cluster_events c is s ≡ ok (s, record { applied = 0; duplicates = length is })
unfolding apply_cluster_events
apply_cluster_events-known c is s h = rw (record_events-known is s h) refl

-- A page that has been persisted, on whatever store and with whatever repetitions, leaves that store as
-- it is when it is applied again: nothing is applied, nothing is projected, nothing raises, and every
-- event is counted as a duplicate.
pub apply_cluster_events-recorded :
    (c : Context) (is : List IncomingClusterEvent) (s : Store)
    → let once = (record_events is s).store in
      apply_cluster_events c is once ≡ ok (once, record { applied = 0; duplicates = length is })
apply_cluster_events-recorded c is s =
    apply_cluster_events-known c is (record_events is s).store (record_events-all_known is s)
