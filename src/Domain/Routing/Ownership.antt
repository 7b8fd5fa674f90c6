-- ===== src/Domain/Routing/Ownership.antt =====
-- One owner for each delivery: the ranking of the nodes.
use alert_hub.Prelude.{
  ◌≡◌, ap, some, List, [], ◌∷◌, ◌++◌, map, Text, text_eq, contains, Distinct, Memᴰ, Permᴰ, arith,
  ◌∙◌, sym, not, head?, beq_self, text_beq_iff,
}
use mathlib.Core.List.Permᴰ
use mathlib.Core.Path.{fun_ext}
use alert_hub.Prelude.Order.{flip, text_order}
use alert_hub.Prelude.Sets.{
  dedup, dedup-perm, dedup-Distinct, contains-dedup, contains-perm, Distinct-perm,
}
use alert_hub.Prelude.Permuted.{keep-perm}
use alert_hub.Prelude.Sort.{sort_by-perm, sort_by-perm_eq}
use alert_hub.Runtime.{Runtime}
use alert_hub.Domain.Routing.Nodes.{
  NodeCandidate, Eligibility, is_eligible, eligible_node_ids, weight, rendezvous_rank,
  rank_delivery_nodes, index, with_configured, delivery_rank,
}

-- The ranking lists each of the given nodes once, and no other.
pub rendezvous_rank_members :
    (rt : Runtime) (key : Text) (node_ids : List Text)
    → Distinct (rendezvous_rank rt key node_ids)
      × ((a : Text) → contains a (rendezvous_rank rt key node_ids) ≡ contains a node_ids)
unfolding rendezvous_rank
rendezvous_rank_members rt key node_ids =
    let p = sort_by-perm (flip text_order) (weight rt key) (dedup node_ids) in
    (
      Distinct-perm (Permᴰ.symm p) (dedup-Distinct node_ids),
      λ a. contains-perm a p ∙ contains-dedup a node_ids,
    )

-- Nodes that see the same candidates, in any order, rank them alike, where the digests of the
-- eligible nodes differ.
pub rank_delivery_nodes-perm :
    (rt : Runtime) (event_id channel_id : Text) (xs ys : List NodeCandidate) (e : Eligibility)
    → ((a b : Text)
        → Memᴰ a (dedup (eligible_node_ids xs e))
        → Memᴰ b (dedup (eligible_node_ids xs e))
        → weight rt (event_id ++ 0 ∷ channel_id) a ≡ weight rt (event_id ++ 0 ∷ channel_id) b
        → a ≡ b)
    → Permᴰ xs ys
    → rank_delivery_nodes rt event_id channel_id xs e
      ≡ rank_delivery_nodes rt event_id channel_id ys e
unfolding rank_delivery_nodes rendezvous_rank eligible_node_ids
rank_delivery_nodes-perm rt event_id channel_id xs ys e h p =
    sort_by-perm_eq (flip text_order) (weight rt (event_id ++ 0 ∷ channel_id)) _ _ h
      (dedup-perm (Permᴰ.map (λ (c : NodeCandidate). c.node_id) (keep-perm (is_eligible e) p)))

with_configured-perm :
    (xs ys : List NodeCandidate) (e : Eligibility)
    → Permᴰ xs ys
    → Permᴰ (with_configured xs e) (with_configured ys e)
unfolding with_configured
with_configured-perm xs ys e p =
    let known = λ (l : List NodeCandidate). map (λ c. c.node_id) l in
    let same : (λ (i : Text). not (contains i (known xs))) ≡ (λ i. not (contains i (known ys))) =
      fun_ext (λ i. ap not (contains-perm i (Permᴰ.map (λ (c : NodeCandidate). c.node_id) p))) in
    rw same (Permᴰ.append_right _ p)

some_injective : (a b : Text) → some a ≡ some b → a ≡ b
some_injective a b h = cc

index_zero : (x : Text) (ys : List Text) → index x ys ≡ some 0 → head? ys ≡ some x
unfolding index
index_zero x [] h = cc
index_zero x (y ∷ ys) h = ground (arith, text_beq_iff x y)

pub index_head : (y : Text) (ys : List Text) → index y (y ∷ ys) ≡ some 0
unfolding index
index_head y ys = rw (beq_self y)

rank_owner :
    (rt : Runtime) (n event channel : Text) (e : Eligibility) (cs : List NodeCandidate)
    → (delivery_rank rt n event channel e cs).0 ≡ some 0
    → head? (rank_delivery_nodes rt event channel (with_configured cs e) e) ≡ some n
unfolding delivery_rank
rank_owner rt n event channel e cs h =
    index_zero n (rank_delivery_nodes rt event channel (with_configured cs e) e) (ground arith)

-- The digests of the eligible nodes, those that the channel names included, differ.
abbrev pub NoCollision : Runtime → Text → Text → Eligibility → List NodeCandidate → Type 0
NoCollision rt event channel e cs =
    (a b : Text)
    → Memᴰ a (dedup (eligible_node_ids (with_configured cs e) e))
    → Memᴰ b (dedup (eligible_node_ids (with_configured cs e) e))
    → weight rt (event ++ 0 ∷ channel) a ≡ weight rt (event ++ 0 ∷ channel) b
    → a ≡ b

-- Two nodes that know the same candidates, in any order, never both hold rank zero for a delivery,
-- where the digests of the eligible nodes differ.
pub delivery_rank_unique :
    (rt : Runtime) (n m event channel : Text) (e : Eligibility) (xs ys : List NodeCandidate)
    → NoCollision rt event channel e xs
    → Permᴰ xs ys
    → (delivery_rank rt n event channel e xs).0 ≡ some 0
    → (delivery_rank rt m event channel e ys).0 ≡ some 0
    → n ≡ m
delivery_rank_unique rt n m event channel e xs ys h p hn hm = some_injective n m (
    sym (rank_owner rt n event channel e xs hn)
    ∙ ap head? (
        rank_delivery_nodes-perm rt event channel (with_configured xs e) (with_configured ys e) e h
          (with_configured-perm xs ys e p))
    ∙ rank_owner rt m event channel e ys hm)
