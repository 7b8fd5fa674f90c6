-- ===== src/Application/Notifications/Routes.antt =====
-- `notification_route_rules` and what `delivery_rank` reads of the database.
use alert_hub.Prelude.{
  ℕ, Bool, Option, List, [], ◌∷◌, Text, codes, keep, map, Result, ok, raise, ◌>>=◌,
}
use alert_hub.Prelude.Int.{int_order}
use alert_hub.Prelude.Order.{pair_order, text_order}
use alert_hub.Prelude.Sort.{sort_by}
use alert_hub.Runtime.{Fields, Runtime, get, str_list, str_values}
use alert_hub.Domain.Routing.Matcher.{LabelMatcher, parse_matcher}
use alert_hub.Domain.Routing.Rules.{RouteRule}
use alert_hub.Domain.Routing.Nodes.{Eligibility, NodeCandidate, delivery_rank}
use alert_hub.Application.Rows.{Node, NotificationChannel, NotificationRoute}
use alert_hub.Application.Store.{Store}

unfoldable pub parse_matchers : Runtime → List Fields → Result (List LabelMatcher)
unfolding parse_matcher
parse_matchers rt [] = ok []
parse_matchers rt (v ∷ vs) =
    parse_matcher rt v >>= λ m. (parse_matchers rt vs >>= λ ms. ok (m ∷ ms))

-- A route whose matchers are refused is left out.
abbrev pub add_rule :
    NotificationRoute → Result (List LabelMatcher) → List RouteRule → List RouteRule
add_rule r (raise e) rules = rules
add_rule r (ok matchers) rules =
    record {
      route_id = r.id;
      priority = r.priority;
      source_filter = r.source_filter;
      severity_filter = r.severity_filter;
      label_matchers = matchers;
      channel_ids = r.channel_ids;
      continue_matching = r.continue_matching;
    }
    ∷ rules

unfoldable pub rules_of : Runtime → List NotificationRoute → List RouteRule
unfolding parse_matchers
rules_of rt [] = []
rules_of rt (r ∷ rs) = add_rule r (parse_matchers rt r.label_matchers) (rules_of rt rs)

unfoldable pub notification_route_rules : Runtime → Store → List RouteRule
unfolding rules_of sort_by
notification_route_rules rt s = rules_of rt (
    sort_by (pair_order int_order text_order) (λ (r : NotificationRoute). (r.priority, r.id))
      (keep (λ (r : NotificationRoute). r.enabled) s.routes))

abbrev pub eligibility : Runtime → NotificationChannel → Eligibility
eligibility rt x = record {
  node_ids = str_list rt (get (codes "node_ids") x.eligible_nodes_or_regions);
  regions = str_list rt (get (codes "regions") x.eligible_nodes_or_regions);
}

unfoldable pub candidates_of : Store → List NodeCandidate
unfolding sort_by
candidates_of s =
    map
      (λ (n : Node). record { node_id = n.id; region = n.region; enabled_roles = n.enabled_roles })
      (sort_by text_order (λ (n : Node). n.id) s.nodes)

-- `delivery_rank` with the candidates of the database.
unfoldable pub rank_of : Runtime → Text → Text → NotificationChannel → Store → Option ℕ × Bool
unfolding delivery_rank candidates_of str_values
rank_of rt node_id event_identity x s =
    delivery_rank rt node_id event_identity x.id (eligibility rt x) (candidates_of s)
