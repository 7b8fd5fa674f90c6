-- ===== src/Domain/Tests.antt =====
-- The theorems of the domain layer at concrete inputs.
use alert_hub.Prelude.{
  ℕ, ◌≡◌, ◌≤◌, ◌↔◌, refl, ap, true, false, not, ◌&&◌, some, List, [], ◌∷◌, ◌++◌, Memᴰ, Permᴰ, Text,
  text_eq, codes, ok, arith, Distinct, text_beq, nonempty, length, contains, if◌then◌else◌, leb,
  map, inl,
}
use alert_hub.Domain.Time.{as_utc}
use alert_hub.Prelude.Order.{text_le}
use alert_hub.Prelude.Int.{ℤ, pos, pos_part}
use alert_hub.Toy.{toy, or_default, pair_identified}
use alert_hub.Runtime.{Fields, aware, get}
use alert_hub.Runtime.Value.{text}
use alert_hub.Runtime.Fields.{end, field}
use alert_hub.Domain.Events.Defs.{
  EventType, ProjectionEvent, IncidentProjection, initial, event_key, project_incident, run,
  apply_type,
}
use alert_hub.Domain.Events.Order.{IdentifiesEvents, project_incident-perm}
use alert_hub.Domain.Events.Shape.{IsCoherent, project_incident-IsCoherent}
use alert_hub.Domain.Events.Repeats.{project_incident-repeat}
use alert_hub.Prelude.Sort.{sort_by}
use alert_hub.Domain.Routing.Matcher.{
  LabelMatcher, Operator, is_pattern, label_matcher, matcher_matches, matcher_matches-opposite,
  label_matcher_bounds,
}
use alert_hub.Domain.Routing.Rules.{
  RouteRule, rule_matches, route_key, route_order, select_channel_ids,
}
use alert_hub.Domain.Routing.Selection.{
  IdentifiesRoutes, Reached, select_channel_ids-perm, select_channel_ids_iff,
}
use alert_hub.Domain.Routing.Nodes.{
  NodeCandidate, Eligibility, weight, rendezvous_rank, rank_delivery_nodes, delivery_rank,
}
use alert_hub.Domain.Routing.Owners.{CanDeliver, delivery_rank_owner}
use alert_hub.Domain.Routing.Ownership.{
  NoCollision, rendezvous_rank_members, rank_delivery_nodes-perm, delivery_rank_unique,
}

abbrev fired : ProjectionEvent
fired = record {
  event_id = codes "a";
  event_type = EventType.firing;
  occurred_at = aware 10;
  payload = end;
}

abbrev resolved : ProjectionEvent
resolved = record {
  event_id = codes "b";
  event_type = EventType.resolved;
  occurred_at = aware 20;
  payload = end;
}

events_identified : IdentifiesEvents (fired ∷ resolved ∷ [])
events_identified =
    pair_identified event_key fired resolved
      λ h. absurd (omega (arith, ap (λ (k : ℕ × Text). k.0) h))

abbrev swapped : Permᴰ (fired ∷ resolved ∷ []) (resolved ∷ fired ∷ [])
swapped = Permᴰ.swap refl refl

project_incident-perm_example :
    project_incident toy 0 (fired ∷ resolved ∷ []) ≡ project_incident toy 0 (resolved ∷ fired ∷ [])
project_incident-perm_example =
    project_incident-perm toy 0 (fired ∷ resolved ∷ []) (resolved ∷ fired ∷ []) events_identified
      swapped

project_incident-repeat_example :
    project_incident toy 0 (fired ∷ fired ∷ resolved ∷ [])
    ≡ project_incident toy 0 (fired ∷ resolved ∷ [])
project_incident-repeat_example =
    project_incident-repeat toy 0 fired (fired ∷ resolved ∷ []) events_identified (Memᴰ.head refl)

abbrev projected : IncidentProjection
unfolding project_incident
projected = or_default initial (project_incident toy 0 (resolved ∷ fired ∷ []))

projects : project_incident toy 0 (resolved ∷ fired ∷ []) ≡ ok projected
unfolding project_incident run apply_type sort_by as_utc get text_beq
projects = refl

project_incident-IsCoherent_example : IsCoherent projected
project_incident-IsCoherent_example =
    project_incident-IsCoherent toy 0 (resolved ∷ fired ∷ []) projects

abbrev team : LabelMatcher
team = record { name = codes "team"; operator = Operator.regex; value = codes "core" }

abbrev core_labels : Fields
core_labels = field (codes "team") (text (codes "core")) end

matcher_matches-opposite_example :
    matcher_matches toy (record team { operator = Operator.not_regex }) core_labels
    ≡ not (matcher_matches toy team core_labels)
matcher_matches-opposite_example = matcher_matches-opposite toy team core_labels

team_accepted : label_matcher toy (codes " team") (codes "=~") (codes "core") ≡ ok team
unfolding label_matcher text_beq
team_accepted = refl

label_matcher_bounds_example :
    (nonempty team.name ≡ true)
    × (length team.name ≤ 255)
    × (length team.value ≤ 1024)
    × ((if is_pattern team.operator
          then leb (length team.value) 256 && toy.re_compiles team.value
          else true)
        ≡ true)
label_matcher_bounds_example =
    label_matcher_bounds toy (codes " team") (codes "=~") (codes "core") team_accepted

abbrev first_route : RouteRule
first_route = record {
  route_id = codes "r1";
  priority = pos 1;
  source_filter = [];
  severity_filter = codes "critical" ∷ [];
  label_matchers = team ∷ [];
  channel_ids = codes "mail" ∷ codes "push" ∷ [];
  continue_matching = true;
}

abbrev last_route : RouteRule
last_route = record {
  route_id = codes "r2";
  priority = pos 2;
  source_filter = [];
  severity_filter = [];
  label_matchers = [];
  channel_ids = codes "mail" ∷ codes "chat" ∷ [];
  continue_matching = false;
}

abbrev routes : List RouteRule
routes = first_route ∷ last_route ∷ []

routes_identified : IdentifiesRoutes routes
routes_identified =
    pair_identified route_key first_route last_route
      λ h. absurd (omega (arith, ap (λ (k : ℤ × Text). pos_part k.0) h))

select_channel_ids-perm_example :
    select_channel_ids toy routes (codes "s") (codes "critical") core_labels
    ≡ select_channel_ids toy
        (last_route ∷ first_route ∷ [])
        (codes "s")
        (codes "critical")
        core_labels
select_channel_ids-perm_example =
    select_channel_ids-perm toy routes (last_route ∷ first_route ∷ []) (codes "s")
      (codes "critical") core_labels routes_identified (Permᴰ.swap refl refl)

select_channel_ids_iff_example :
    Distinct (select_channel_ids toy routes (codes "s") (codes "critical") core_labels)
    × ((c : Text)
        → (contains c (select_channel_ids toy routes (codes "s") (codes "critical") core_labels)
            ≡ true)
          ↔ ((r : RouteRule) × Reached
                (λ q. rule_matches toy q (codes "s") (codes "critical") core_labels)
                (sort_by route_order route_key routes)
                r
              × (contains c r.channel_ids ≡ true)))
select_channel_ids_iff_example =
    select_channel_ids_iff toy routes (codes "s") (codes "critical") core_labels

abbrev node_a : NodeCandidate
node_a = record { node_id = codes "a"; region = codes "eu"; enabled_roles = codes "notify" ∷ [] }

abbrev node_b : NodeCandidate
node_b = record { node_id = codes "b"; region = codes "us"; enabled_roles = codes "notify" ∷ [] }

abbrev nodes : List NodeCandidate
nodes = node_a ∷ node_b ∷ []

abbrev swapped_nodes : List NodeCandidate
swapped_nodes = node_b ∷ node_a ∷ []

abbrev anywhere : Eligibility
anywhere = record { node_ids = []; regions = [] }

rendezvous_rank_members_example :
    Distinct (rendezvous_rank toy (codes "k") (codes "a" ∷ codes "b" ∷ codes "a" ∷ []))
    × ((x : Text)
        → contains x (rendezvous_rank toy (codes "k") (codes "a" ∷ codes "b" ∷ codes "a" ∷ []))
          ≡ contains x (codes "a" ∷ codes "b" ∷ codes "a" ∷ []))
rendezvous_rank_members_example =
    rendezvous_rank_members toy (codes "k") (codes "a" ∷ codes "b" ∷ codes "a" ∷ [])

-- The digests of the toy runtime differ where the ids do.
weight_injective :
    (a b : Text)
    → weight toy (codes "e" ++ 0 ∷ codes "c") a ≡ weight toy (codes "e" ++ 0 ∷ codes "c") b
    → a ≡ b
weight_injective a b h = cc

rank_delivery_nodes-perm_example :
    rank_delivery_nodes toy (codes "e") (codes "c") nodes anywhere
    ≡ rank_delivery_nodes toy (codes "e") (codes "c") swapped_nodes anywhere
rank_delivery_nodes-perm_example =
    rank_delivery_nodes-perm toy (codes "e") (codes "c") nodes swapped_nodes anywhere
      (λ a b _ _ h. weight_injective a b h) (Permᴰ.swap refl refl)

no_collision : NoCollision toy (codes "e") (codes "c") anywhere nodes
no_collision a b _ _ h = weight_injective a b h

b_first : (delivery_rank toy (codes "b") (codes "e") (codes "c") anywhere nodes).0 ≡ some 0
unfolding delivery_rank text_beq text_le
b_first = refl

b_first_swapped :
    (delivery_rank toy (codes "b") (codes "e") (codes "c") anywhere swapped_nodes).0 ≡ some 0
unfolding delivery_rank text_beq text_le
b_first_swapped = refl

delivery_rank_unique_example : codes "b" ≡ codes "b"
delivery_rank_unique_example =
    delivery_rank_unique toy (codes "b") (codes "b") (codes "e") (codes "c") anywhere nodes
      swapped_nodes no_collision (Permᴰ.swap refl refl) b_first b_first_swapped

-- A channel for one node that none of the nodes knows.
abbrev chosen : Eligibility
chosen = record { node_ids = codes "x" ∷ []; regions = [] }

x_unknown : contains (codes "x") (map (λ (c : NodeCandidate). c.node_id) nodes) ≡ false
unfolding text_beq
x_unknown = refl

delivery_rank_owner_example :
    (owner : Text) × (delivery_rank toy owner (codes "e") (codes "c") chosen nodes ≡ (some 0, true))
    × CanDeliver chosen nodes owner
delivery_rank_owner_example =
    delivery_rank_owner toy (codes "e") (codes "c") chosen nodes (codes "x")
      (CanDeliver.configured (Memᴰ.head refl) refl x_unknown (inl refl))
