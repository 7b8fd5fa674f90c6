-- ===== src/Domain/Routing/Selection.antt =====
-- What `select_channel_ids` selects.
use alert_hub.Prelude.{
  ◌≡◌, ◌↔◌, ap, Bool, true, false, List, [], ◌∷◌, Text, Memᴰ, Permᴰ, text_eq, contains, Distinct,
  inl, inr, ◌⊎◌, Bool-cases, ||-cases, arith,
}
use alert_hub.Prelude.Sort.{sort_by, sort_by-perm_eq}
use alert_hub.Prelude.Sets.{add_all_new, add_all_new-Distinct, contains-add_all_new}
use alert_hub.Runtime.{Fields, Runtime}
use alert_hub.Domain.Routing.Rules.{
  RouteRule, rule_matches, select_from, route_key, route_order, select_channel_ids,
}

-- Within the configuration a priority and an id identify a route.
abbrev pub IdentifiesRoutes : List RouteRule → Type 0
IdentifiesRoutes rs = (a b : RouteRule) → Memᴰ a rs → Memᴰ b rs → route_key a ≡ route_key b → a ≡ b

-- The same routes in any order select the same channels in the same order, where the priority and the
-- id identify each route.
pub select_channel_ids-perm :
    (rt : Runtime) (xs ys : List RouteRule) (source_id severity : Text) (labels : Fields)
    → IdentifiesRoutes xs
    → Permᴰ xs ys
    → select_channel_ids rt xs source_id severity labels
      ≡ select_channel_ids rt ys source_id severity labels
unfolding select_channel_ids
select_channel_ids-perm rt xs ys source_id severity labels h p =
    ap (λ l. select_from (λ r. rule_matches rt r source_id severity labels) l [])
      (sort_by-perm_eq route_order route_key xs ys h p)

select_from-Distinct :
    (matches : RouteRule → Bool) (rs : List RouteRule) (selected : List Text)
    → Distinct selected
    → Distinct (select_from matches rs selected)
unfolding select_from
select_from-Distinct matches [] selected d = d
select_from-Distinct matches (r ∷ rs) selected d = ground (
  arith,
  select_from-Distinct matches rs selected d,
  select_from-Distinct matches rs (add_all_new r.channel_ids selected),
  add_all_new-Distinct r.channel_ids selected d,
)

-- The routes that a walk in order comes to and that match: a matching route that does not continue
-- is the last.
pub data Reached (matches : RouteRule → Bool) : List RouteRule → RouteRule → Type 0 where
  here : {r : RouteRule} {rs : List RouteRule} → matches r ≡ true → Reached matches (r ∷ rs) r
  past :
      {r q : RouteRule} {rs : List RouteRule}
      → (matches r ≡ false) ⊎ (r.continue_matching ≡ true)
      → Reached matches rs q
      → Reached matches (r ∷ rs) q

Selects : (RouteRule → Bool) → Text → List RouteRule → Type 0
Selects matches c rs = (r : RouteRule) × Reached matches rs r × (contains c r.channel_ids ≡ true)

Selects-past :
    (matches : RouteRule → Bool) (c : Text) (r : RouteRule) (rs : List RouteRule)
    → (matches r ≡ false) ⊎ (r.continue_matching ≡ true)
    → Selects matches c rs
    → Selects matches c (r ∷ rs)
unfolding Selects
Selects-past matches c r rs step (q, reached, has) = (q, past step reached, has)

-- What a route that the walk comes to adds, or what was selected before.
added-cases :
    (matches : RouteRule → Bool) (c : Text) (r : RouteRule) (rs : List RouteRule)
    (selected : List Text)
    → matches r ≡ true
    → contains c (add_all_new r.channel_ids selected) ≡ true
    → (contains c selected ≡ true) ⊎ Selects matches c (r ∷ rs)
unfolding Selects
added-cases matches c r rs selected found h =
    elim (||-cases (contains c r.channel_ids) (contains c selected)
      (rw (← contains-add_all_new c r.channel_ids selected) h)) [
        | inl own ↦ inr (r, here found, own)
        | inr old ↦ inl old
      ]

select_from-Selects :
    (matches : RouteRule → Bool) (c : Text) (rs : List RouteRule) (selected : List Text)
    → contains c (select_from matches rs selected) ≡ true
    → (contains c selected ≡ true) ⊎ Selects matches c rs
unfolding select_from
select_from-Selects matches c [] selected h = inl h
select_from-Selects matches c (r ∷ rs) selected h = elim (Bool-cases (matches r)) [
  | inr skipped ↦ elim (select_from-Selects matches c rs selected (ground arith)) [
    | inl old ↦ inl old
    | inr s ↦ inr (Selects-past matches c r rs (inl skipped) s)
  ]
  | inl found ↦ elim (Bool-cases r.continue_matching) [
    | inr last ↦ added-cases matches c r rs selected found (ground arith)
    | inl goes_on ↦
        elim (select_from-Selects matches c rs (add_all_new r.channel_ids selected)
          (ground arith)) [
            | inl old ↦ added-cases matches c r rs selected found old
            | inr s ↦ inr (Selects-past matches c r rs (inr goes_on) s)
          ]
  ]
]

-- The loop drops nothing that it has selected.
select_from_keeps :
    (matches : RouteRule → Bool) (c : Text) (rs : List RouteRule) (selected : List Text)
    → contains c selected ≡ true
    → contains c (select_from matches rs selected) ≡ true
unfolding select_from
select_from_keeps matches c [] selected h = h
select_from_keeps matches c (r ∷ rs) selected h = ground (
  arith,
  select_from_keeps matches c rs selected h,
  select_from_keeps matches c rs (add_all_new r.channel_ids selected),
  contains-add_all_new c r.channel_ids selected,
)

Selects-select_from :
    (matches : RouteRule → Bool) (c : Text) (rs : List RouteRule) (selected : List Text)
    {r : RouteRule}
    → Reached matches rs r
    → contains c r.channel_ids ≡ true
    → contains c (select_from matches rs selected) ≡ true
unfolding select_from
Selects-select_from matches c [] selected m h = elim m [ ]
Selects-select_from matches c (r ∷ rs) selected (here found) h = ground (
  arith,
  select_from_keeps matches c rs (add_all_new r.channel_ids selected),
  contains-add_all_new c r.channel_ids selected,
)
Selects-select_from matches c (r ∷ rs) selected (past step m) h = ground (
  arith,
  Selects-select_from matches c rs selected m h,
  Selects-select_from matches c rs (add_all_new r.channel_ids selected) m h,
  select_from_keeps matches c rs (add_all_new r.channel_ids selected),
  contains-add_all_new c r.channel_ids selected,
)

-- A channel is selected exactly when a route that the walk in order of priority comes to, and that
-- matches the incident, names it; and no channel is selected twice.
pub select_channel_ids_iff :
    (rt : Runtime) (routes : List RouteRule) (source_id severity : Text) (labels : Fields)
    → Distinct (select_channel_ids rt routes source_id severity labels)
      × ((c : Text)
          → (contains c (select_channel_ids rt routes source_id severity labels) ≡ true) ↔ (
              (r : RouteRule) × Reached
                (λ q. rule_matches rt q source_id severity labels)
                (sort_by route_order route_key routes)
                r
              × (contains c r.channel_ids ≡ true)))
unfolding select_channel_ids Selects
select_channel_ids_iff rt routes source_id severity labels =
    let matches = λ (q : RouteRule). rule_matches rt q source_id severity labels in
    let ordered = sort_by route_order route_key routes in
    (
      select_from-Distinct matches ordered [] tt,
      λ c. (
        λ h. elim (select_from-Selects matches c ordered [] h) [
          | inl none_yet ↦ absurd (cc)
          | inr s ↦ s
        ],
        λ (r, reached, h). Selects-select_from matches c ordered [] reached h,
      ),
    )
