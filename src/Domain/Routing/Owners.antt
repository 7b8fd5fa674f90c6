-- ===== src/Domain/Routing/Owners.antt =====
-- Which nodes may own a delivery, apart from the ranking, and that one of them does.
use mathlib.Core.Path.{subst}
use alert_hub.Prelude.{
  ◌≡◌, refl, ap, true, false, some, List, [], ◌∷◌, ◌++◌, map, Text, codes, text_eq, contains,
  nonempty, keep, Memᴰ, arith, ◌∙◌, sym, not, ◌||◌, ◌⊎◌, inl, inr, mem_of_contains, contains_of_mem,
}
use mathlib.Core.List.Permᴰ
use alert_hub.Prelude.Order.{text_order}
use alert_hub.Prelude.Sets.{dedup, contains-dedup}
use alert_hub.Prelude.Sort.{sort_by, sort_by-perm}
use alert_hub.Prelude.Members.{mem_keep, contains-map, mem_of_contains-map, mem_of_mem-map}
use alert_hub.Prelude.Permuted.{
  mem_perm, mem_of_keep, true_of_keep, mem_of_append, mem-append_left, mem-append_right, mem-map,
}
use alert_hub.Runtime.{Runtime}
use alert_hub.Domain.Routing.Nodes.{
  NodeCandidate, Eligibility, is_eligible, eligible_node_ids, rank_delivery_nodes, with_configured,
  delivery_rank,
}
use alert_hub.Domain.Routing.Ownership.{rendezvous_rank_members, index_head}

-- A list that restricts nothing, since it is empty, or that has the entry.
abbrev pub Admits : List Text → Text → Type 0
Admits xs x = (xs ≡ []) ⊎ Memᴰ x xs

-- A node that notifies, and that the channel does not exclude by its id or its region.
pub record Serves (e : Eligibility) (c : NodeCandidate) : Type 0 where
  pub role : Admits c.enabled_roles (codes "notify")
  pub node : Admits e.node_ids c.node_id
  pub place : Admits e.regions c.region

-- A node that is known and serves, or one that the channel names and that is not known; such a node
-- has the empty region.
pub data CanDeliver (e : Eligibility) (cs : List NodeCandidate) (i : Text) : Type 0 where
  known : (c : NodeCandidate) → Memᴰ c cs → Serves e c → i ≡ c.node_id → CanDeliver e cs i
  configured :
      Memᴰ i e.node_ids
      → nonempty i ≡ true
      → contains i (map (λ (c : NodeCandidate). c.node_id) cs) ≡ false
      → Admits e.regions []
      → CanDeliver e cs i

admitted : (xs : List Text) (x : Text) → Admits xs x → (not (nonempty xs) || contains x xs) ≡ true
admitted xs x (inl none_given) = rw none_given refl
admitted xs x (inr m) = ground (arith, contains_of_mem x xs m)

Admits-of : (xs : List Text) (x : Text) → (not (nonempty xs) || contains x xs) ≡ true → Admits xs x
Admits-of [] x h = inl refl
Admits-of (y ∷ xs) x h = inr (mem_of_contains x (y ∷ xs) h)

is_eligible-Serves : (e : Eligibility) (c : NodeCandidate) → Serves e c → is_eligible e c ≡ true
unfolding is_eligible
is_eligible-Serves e c v = ground (
  arith,
  admitted c.enabled_roles (codes "notify") v.role,
  admitted e.node_ids c.node_id v.node,
  admitted e.regions c.region v.place,
)

Serves-of : (e : Eligibility) (c : NodeCandidate) → is_eligible e c ≡ true → Serves e c
unfolding is_eligible
Serves-of e c h = record {
  role = Admits-of c.enabled_roles (codes "notify") (ground (arith, h));
  node = Admits-of e.node_ids c.node_id (ground (arith, h));
  place = Admits-of e.regions c.region (ground (arith, h));
}

-- The candidate that stands for a node that only the channel names.
abbrev outsider : Text → NodeCandidate
outsider i = record { node_id = i; region = []; enabled_roles = codes "notify" ∷ [] }

abbrev ids : List NodeCandidate → List Text
ids cs = map (λ (c : NodeCandidate). c.node_id) cs

-- The nodes that only the channel names.
abbrev strangers : Eligibility → List NodeCandidate → List Text
strangers e cs = keep (λ i. not (contains i (ids cs))) (dedup (keep nonempty e.node_ids))

stranger-mem :
    (e : Eligibility) (cs : List NodeCandidate) {i : Text}
    → Memᴰ i e.node_ids
    → nonempty i ≡ true
    → contains i (ids cs) ≡ false
    → Memᴰ (outsider i) (with_configured cs e)
unfolding with_configured
stranger-mem e cs {i} m h unknown =
    let named = contains_of_mem i (keep nonempty e.node_ids) (mem_keep nonempty e.node_ids m h) in
    let once =
      mem_of_contains i (dedup (keep nonempty e.node_ids))
        (contains-dedup i (keep nonempty e.node_ids) ∙ named) in
    mem-append_right cs (
      mem-map outsider (
        mem_perm (Permᴰ.symm (sort_by-perm text_order (λ j. j) (strangers e cs))) (
          mem_keep (λ j. not (contains j (ids cs))) (dedup (keep nonempty e.node_ids)) once
            (ap not unknown))))

-- A member of the candidates that are ranked is known, or stands for a node that is not.
stranger-cases :
    (e : Eligibility) (cs : List NodeCandidate) {c : NodeCandidate}
    → Memᴰ c (with_configured cs e)
    → Memᴰ c cs ⊎ ((i : Text) × (c ≡ outsider i) × Memᴰ i (strangers e cs))
unfolding with_configured
stranger-cases e cs m = elim (mem_of_append cs m) [
  | inl old ↦ inl old
  | inr new ↦
      let (i, n, p) = mem_of_mem-map outsider (sort_by text_order (λ j. j) (strangers e cs)) new in
      inr (i, p, mem_perm (sort_by-perm text_order (λ j. j) (strangers e cs)) n)
]

eligible_node_ids-mem :
    (e : Eligibility) (cs : List NodeCandidate) (c : NodeCandidate)
    → Memᴰ c (with_configured cs e)
    → Serves e c
    → contains c.node_id (eligible_node_ids (with_configured cs e) e) ≡ true
unfolding eligible_node_ids
eligible_node_ids-mem e cs c m v =
    contains-map (λ (d : NodeCandidate). d.node_id) (keep (is_eligible e) (with_configured cs e))
      (mem_keep (is_eligible e) (with_configured cs e) m (is_eligible-Serves e c v))

eligible_node_ids-CanDeliver :
    (e : Eligibility) (cs : List NodeCandidate) (i : Text)
    → CanDeliver e cs i
    → contains i (eligible_node_ids (with_configured cs e) e) ≡ true
unfolding with_configured
eligible_node_ids-CanDeliver e cs i (known c m v p) =
    rw p (eligible_node_ids-mem e cs c (mem-append_left _ m) v)
eligible_node_ids-CanDeliver e cs i (configured m h unknown place) =
    eligible_node_ids-mem e cs (outsider i) (stranger-mem e cs m h unknown)
      (record { role = inr (Memᴰ.head refl); node = inr m; place = place })

CanDeliver-stranger :
    (e : Eligibility) (cs : List NodeCandidate) (i : Text)
    → Memᴰ i (strangers e cs)
    → Serves e (outsider i)
    → CanDeliver e cs i
CanDeliver-stranger e cs i m v =
    let once = mem_of_keep (λ j. not (contains j (ids cs))) (dedup (keep nonempty e.node_ids)) m in
    let named = mem_of_contains i (keep nonempty e.node_ids) (
      sym (contains-dedup i (keep nonempty e.node_ids))
      ∙ contains_of_mem i (dedup (keep nonempty e.node_ids)) once) in
    configured (mem_of_keep nonempty e.node_ids named) (true_of_keep nonempty e.node_ids named)
      (ground
        (arith, true_of_keep (λ j. not (contains j (ids cs))) (dedup (keep nonempty e.node_ids)) m))
      v.place

CanDeliver-eligible :
    (e : Eligibility) (cs : List NodeCandidate) (i : Text)
    → contains i (eligible_node_ids (with_configured cs e) e) ≡ true
    → CanDeliver e cs i
unfolding eligible_node_ids
CanDeliver-eligible e cs i h =
    let (c, m, p) =
      mem_of_contains-map (λ (d : NodeCandidate). d.node_id) i
        (keep (is_eligible e) (with_configured cs e)) h in
    let v = Serves-of e c (true_of_keep (is_eligible e) (with_configured cs e) m) in
    elim (stranger-cases e cs (mem_of_keep (is_eligible e) (with_configured cs e) m)) [
      | inl old ↦ known c old v p
      | inr (j, q, n) ↦
          subst (CanDeliver e cs) (sym (p ∙ ap (λ (d : NodeCandidate). d.node_id) q))
            (CanDeliver-stranger e cs j n (subst (Serves e) q v))
    ]

rank_delivery_nodes-contains :
    (rt : Runtime) (event channel : Text) (e : Eligibility) (cs : List NodeCandidate) (i : Text)
    → contains i (rank_delivery_nodes rt event channel (with_configured cs e) e)
      ≡ contains i (eligible_node_ids (with_configured cs e) e)
unfolding rank_delivery_nodes
rank_delivery_nodes-contains rt event channel e cs i =
    (rendezvous_rank_members rt (event ++ 0 ∷ channel)
        (eligible_node_ids (with_configured cs e) e)).1
      i

first_of :
    (rt : Runtime) (event channel : Text) (e : Eligibility) (cs : List NodeCandidate) (i : Text)
    (ranking : List Text)
    → rank_delivery_nodes rt event channel (with_configured cs e) e ≡ ranking
    → contains i ranking ≡ true
    → (n : Text) × (delivery_rank rt n event channel e cs ≡ (some 0, true))
      × (contains n ranking ≡ true)
unfolding delivery_rank
first_of rt event channel e cs i [] p h = absurd (cc)
first_of rt event channel e cs i (n ∷ rest) p h =
    (n, ground (arith, index_head n rest), ground (arith, text_eq.beq_iff n n))

-- Where some node can deliver, because it is known, notifies and is not excluded by the channel, or
-- because the channel names it, it is not known and the channel asks for no region or for the empty
-- one, a node that can deliver has rank zero.
pub delivery_rank_owner :
    (rt : Runtime) (event channel : Text) (e : Eligibility) (cs : List NodeCandidate) (i : Text)
    → CanDeliver e cs i
    → (owner : Text) × (delivery_rank rt owner event channel e cs ≡ (some 0, true))
      × CanDeliver e cs owner
delivery_rank_owner rt event channel e cs i can =
    let ranked = rank_delivery_nodes-contains rt event channel e cs in
    let (n, owns, m) =
      first_of rt event channel e cs i _ refl
        (ranked i ∙ eligible_node_ids-CanDeliver e cs i can) in
    (n, owns, CanDeliver-eligible e cs n (sym (ranked n) ∙ m))
