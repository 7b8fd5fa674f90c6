-- ===== src/Domain/Routing/Rules.antt =====
-- `RouteRule` and `select_channel_ids`.
use alert_hub.Prelude.{
  Bool, true, false, not, ◌&&◌, List, [], ◌∷◌, Text, text_eq, contains, all, nonempty,
  if◌then◌else◌,
}
use alert_hub.Prelude.Int.{ℤ, int_order}
use alert_hub.Prelude.Order.{Order, pair_order, text_order}
use alert_hub.Prelude.Sort.{sort_by}
use alert_hub.Prelude.Sets.{add_all_new}
use alert_hub.Runtime.{Fields, Runtime}
use alert_hub.Domain.Routing.Matcher.{LabelMatcher, matcher_matches}

-- The two filters are sets, read only by membership.
pub record RouteRule : Type 0 where
  pub route_id : Text
  pub priority : ℤ
  pub source_filter : List Text
  pub severity_filter : List Text
  pub label_matchers : List LabelMatcher
  pub channel_ids : List Text
  pub continue_matching : Bool

-- `RouteRule.matches`
unfoldable pub rule_matches : Runtime → RouteRule → Text → Text → Fields → Bool
rule_matches rt r source_id severity labels =
    if nonempty r.source_filter && not (contains source_id r.source_filter)
    then false
    else if nonempty r.severity_filter && not (contains severity r.severity_filter)
    then false
    else all (λ m. matcher_matches rt m labels) r.label_matchers

-- The `for` loop over the ordered routes; a route that does not continue ends it.
unfoldable pub select_from : (RouteRule → Bool) → List RouteRule → List Text → List Text
select_from matches [] selected = selected
select_from matches (r ∷ rs) selected = elim (matches r) [
  | false ↦ select_from matches rs selected
  | true ↦ elim r.continue_matching [
    | true ↦ select_from matches rs (add_all_new r.channel_ids selected)
    | false ↦ add_all_new r.channel_ids selected
  ]
]

-- `(route.priority, route.route_id)`
abbrev pub route_key : RouteRule → ℤ × Text
route_key r = (r.priority, r.route_id)

abbrev pub route_order : Order (ℤ × Text)
route_order = pair_order int_order text_order

unfoldable pub select_channel_ids : Runtime → List RouteRule → Text → Text → Fields → List Text
unfolding rule_matches select_from sort_by add_all_new
select_channel_ids rt routes source_id severity labels =
    select_from (λ r. rule_matches rt r source_id severity labels)
      (sort_by route_order route_key routes) []
