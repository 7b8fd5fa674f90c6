-- ===== src/Domain/Routing/Nodes.antt =====
-- `NodeCandidate`, `eligible_node_ids`, `rendezvous_rank` (of domain/events.py),
-- `rank_delivery_nodes`, and `delivery_rank` of application/notifications.py.
use alert_hub.Prelude.{
  ℕ, suc, Bool, true, not, ◌&&◌, ◌||◌, Option, none, some, List, [], ◌∷◌, ◌++◌, map, Text, codes,
  ◌==◌, text_eq, contains, keep, nonempty, if◌then◌else◌,
}
use alert_hub.Prelude.Order.{flip, text_order}
use alert_hub.Prelude.Sets.{dedup}
use alert_hub.Prelude.Sort.{sort_by}
use alert_hub.Runtime.{Runtime}

pub record NodeCandidate : Type 0 where
  pub node_id : Text
  pub region : Text
  pub enabled_roles : List Text

-- `eligible_nodes_or_regions` of a channel: its two lists, as strings; a missing one is empty.
pub record Eligibility : Type 0 where
  pub node_ids : List Text
  pub regions : List Text

-- The three conditions of the comprehension.
unfoldable pub is_eligible : Eligibility → NodeCandidate → Bool
is_eligible e c =
    (not (nonempty c.enabled_roles) || contains (codes "notify") c.enabled_roles)
    && (not (nonempty e.node_ids) || contains c.node_id e.node_ids)
    && (not (nonempty e.regions) || contains c.region e.regions)

unfoldable pub eligible_node_ids : List NodeCandidate → Eligibility → List Text
unfolding is_eligible
eligible_node_ids candidates e = map (λ c. c.node_id) (keep (is_eligible e) candidates)

-- The digest that a node is ranked by. Hexadecimal digests of one length compare as their bytes.
abbrev pub weight : Runtime → Text → Text → Text
weight rt key node_id = rt.sha256 (key ++ 0 ∷ node_id)

unfoldable pub rendezvous_rank : Runtime → Text → List Text → List Text
unfolding dedup sort_by
rendezvous_rank rt key node_ids = sort_by (flip text_order) (weight rt key) (dedup node_ids)

unfoldable pub rank_delivery_nodes :
    Runtime → Text → Text → List NodeCandidate → Eligibility → List Text
unfolding eligible_node_ids rendezvous_rank
rank_delivery_nodes rt event_id channel_id candidates e =
    rendezvous_rank rt (event_id ++ 0 ∷ channel_id) (eligible_node_ids candidates e)

-- `ranking.index(node_id)`; `none` is its `ValueError`.
unfoldable pub index : Text → List Text → Option ℕ
index x [] = none
index x (y ∷ ys) =
    let rest = index x ys in
    if x == y then some 0 else elim rest [ none ↦ none | some i ↦ some (suc i) ]

-- The candidates, and the nodes that the channel names and nobody knows, in order of their ids.
unfoldable pub with_configured : List NodeCandidate → Eligibility → List NodeCandidate
unfolding sort_by dedup
with_configured candidates e =
    let known = map (λ c. c.node_id) candidates in
    let configured = dedup (keep nonempty e.node_ids) in
    candidates
    ++ map (λ i. record { node_id = i; region = []; enabled_roles = codes "notify" ∷ [] })
        (sort_by text_order (λ i. i) (keep (λ i. not (contains i known)) configured))

-- The rank of the node for the delivery, and whether any node is eligible.
unfoldable pub delivery_rank :
    Runtime → Text → Text → Text → Eligibility → List NodeCandidate → Option ℕ × Bool
unfolding with_configured rank_delivery_nodes index
delivery_rank rt node_id event_identity channel_id e candidates =
    let ranking =
      rank_delivery_nodes rt event_identity channel_id (with_configured candidates e) e in
    elim (index node_id ranking) [ none ↦ (none, nonempty ranking) | some i ↦ (some i, true) ]
