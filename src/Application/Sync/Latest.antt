-- ===== src/Application/Sync/Latest.antt =====
-- `_latest_entity_event`: the greatest event of an entity, whatever the order of the history.
use mathlib.Core.Path.{subst}
use mathlib.Core.List.Permᴰ
use alert_hub.Prelude.{
  ◌≡◌, ◌↔◌, refl, sym, ap, ◌∙◌, Bool, true, false, Option, none, some, List, [], ◌∷◌, Text, all,
  keep, nonempty, arith, Memᴰ, Permᴰ, Bool-cases, inl, inr,
}
use alert_hub.Prelude.Members.{mem_all}
use alert_hub.Prelude.Permuted.{keep-perm, mem_of_keep, mem_perm}
use alert_hub.Domain.Events.Defs.{key_order}
use alert_hub.Application.Rows.{ClusterEvent}
use alert_hub.Application.Store.{Store}
use alert_hub.Application.Sync.Converge.{Identified}
use alert_hub.Application.Sync.History.{
  entity_events, event_order, later_of, latest, latest_entity_event, of_entity,
}

abbrev pub is_upto : ClusterEvent → ClusterEvent → Bool
is_upto m e = key_order.le (event_order e) (event_order m)

-- One of the events, and none is later; or none where there is no event.
abbrev pub IsLatest : List ClusterEvent → Option ClusterEvent → Type 0
IsLatest es none = nonempty es ≡ false
IsLatest es (some m) = Memᴰ m es × (all (is_upto m) es ≡ true)

is_upto_self : (e : ClusterEvent) → is_upto e e ≡ true
is_upto_self e = elim (Bool-cases (is_upto e e)) [
  | inl same ↦ same
  | inr differ ↦ key_order.le_total (event_order e) (event_order e) differ
]

all-is_upto :
    (m e : ClusterEvent) (es : List ClusterEvent)
    → is_upto e m ≡ true
    → all (is_upto m) es ≡ true
    → all (is_upto e) es ≡ true
all-is_upto m e [] h k = refl
all-is_upto m e (f ∷ es) h k = ground (
  arith,
  key_order.le_trans (event_order f) (event_order m) (event_order e),
  h,
  k,
  all-is_upto m e es h,
)

later_of-last : (e m : ClusterEvent) → is_upto e m ≡ true → later_of e (some m) ≡ e
later_of-last e m h = rw h refl

later_of-more : (e m : ClusterEvent) → is_upto e m ≡ false → later_of e (some m) ≡ m
later_of-more e m h = rw h refl

later_of-IsLatest :
    (e : ClusterEvent) (es : List ClusterEvent) (o : Option ClusterEvent)
    → IsLatest es o
    → IsLatest (e ∷ es) (some (later_of e o))
later_of-IsLatest e [] none h = (Memᴰ.head refl, ground (arith, is_upto_self e))
later_of-IsLatest e (f ∷ es) none h = cc
later_of-IsLatest e es (some m) h = elim (Bool-cases (is_upto e m)) [
  | inl last ↦
      subst (λ x. IsLatest (e ∷ es) (some x)) (sym (later_of-last e m last))
        (Memᴰ.head refl, ground (arith, is_upto_self e, all-is_upto m e es last h.1))
  | inr more ↦
      subst (λ x. IsLatest (e ∷ es) (some x)) (sym (later_of-more e m more))
        (
          Memᴰ.tail h.0,
          ground (arith, h.1, key_order.le_total (event_order m) (event_order e) more),
        )
]

latest-IsLatest : (es : List ClusterEvent) → IsLatest es (latest es)
unfolding latest
latest-IsLatest [] = refl
latest-IsLatest (e ∷ es) = later_of-IsLatest e es (latest es) (latest-IsLatest es)

-- Two events of one history that are both the latest are one.
IsLatest-unique :
    (es fs : List ClusterEvent)
    → Permᴰ es fs
    → Identified fs
    → (o q : Option ClusterEvent) → IsLatest es o
    → IsLatest fs q
    → o ≡ q
IsLatest-unique [] fs p known none none h k = refl
IsLatest-unique (e ∷ es) fs p known none q h k = cc
IsLatest-unique [] fs p known none (some n) h k = elim (mem_perm (Permᴰ.symm p) k.0) [ ]
IsLatest-unique es [] p known (some m) none h k = elim (mem_perm p h.0) [ ]
IsLatest-unique es (f ∷ fs) p known (some m) none h k = cc
IsLatest-unique es fs p known (some m) (some n) h k = ap some (
    known m n (mem_perm p h.0) k.0 (
      key_order.le_antisymm (event_order m) (event_order n)
        (mem_all (is_upto n) fs k.1 (mem_perm p h.0))
        (mem_all (is_upto m) es h.1 (mem_perm (Permᴰ.symm p) k.0))))

-- Of a history in which every event is known by its time and its id, and in whatever order a node has
-- it, what the lookup returns for an entity is what the specification allows and nothing else: one of
-- the entity's events that no other is later than, or none where the entity has no event.
pub latest_entity_event-IsLatest :
    (t i : Text) (s : Store) (es : List ClusterEvent)
    → Permᴰ es s.cluster_events
    → Identified s.cluster_events
    → (o : Option ClusterEvent)
    → IsLatest (keep (of_entity t i) es) o ↔ (o ≡ latest_entity_event t i s)
unfolding latest_entity_event
latest_entity_event-IsLatest t i s es p known o =
    let found = latest-IsLatest (entity_events t i s) in
    let known_here : Identified (entity_events t i s) = λ a b m n.
      known a b (mem_of_keep (of_entity t i) s.cluster_events m)
        (mem_of_keep (of_entity t i) s.cluster_events n) in
    let same = keep-perm (of_entity t i) p in
    (
      λ h.
          IsLatest-unique (keep (of_entity t i) es) (entity_events t i s) same known_here o
            (latest (entity_events t i s)) h found,
      λ e.
          subst (IsLatest (keep (of_entity t i) es))
            (IsLatest-unique (keep (of_entity t i) es) (entity_events t i s) same known_here
                (latest (keep (of_entity t i) es)) (latest (entity_events t i s))
                (latest-IsLatest (keep (of_entity t i) es)) found
              ∙ sym e)
            (latest-IsLatest (keep (of_entity t i) es)),
    )
