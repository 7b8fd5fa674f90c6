-- ===== src/Domain/Checks/Aggregate.antt =====
-- `aggregate_check`.
use alert_hub.Prelude.{
  ℕ, Bool, not, ◌&&◌, ◌||◌, Option, none, some, List, [], ◌∷◌, ◌++◌, map, Text, codes, ◌==◌,
  text_eq, contains, any, all, keep, length, nonempty, max, min, Result, ok, ◌>>◌, raise_if,
  value_error, ltb, if◌then◌else◌,
}
use alert_hub.Prelude.Int.{ℤ, pos, pos_part, leb_ℤ}
use alert_hub.Prelude.Order.{text_order}
use alert_hub.Prelude.Sets.{dedup}
use alert_hub.Prelude.Sort.{sort_by}
use alert_hub.Domain.Checks.Types.{
  CheckStatus, StatusReason, NormalizedCheckResult, CheckResultView, CheckPart, AggregatedCheck,
  logical_source, key_tuple, key_order, default_scenario, is_up, is_degraded, is_down, is_stale,
  is_unknown, is_invalid_data, is_insufficient, mixed_results, confirmed_failures, all_results_up,
  expired_measurements, invalid_data, insufficient_sources, incomplete_data,
}
use alert_hub.Domain.Checks.Views.{result_view}
use alert_hub.Domain.Checks.Parts.{make_parts, sources_of, every, up_view, stale_view}

-- The status from the parts.
unfoldable pub decide_check : List CheckPart → CheckStatus × StatusReason
decide_check parts =
    if any (λ p. is_down p.status) parts
    then (CheckStatus.down, confirmed_failures)
    else if any (λ p. is_degraded p.status) parts
    then (CheckStatus.degraded, mixed_results)
    else if nonempty parts && all (λ p. is_up p.status) parts
    then (CheckStatus.up, all_results_up)
    else if nonempty parts && all (λ p. is_stale p.status) parts
    then (CheckStatus.stale, expired_measurements)
    else if any (λ p. is_invalid_data p.status_reason) parts
    then (CheckStatus.unknown, invalid_data)
    else if any (λ p. is_insufficient p.status_reason) parts
    then (CheckStatus.unknown, insufficient_sources)
    else (CheckStatus.unknown, incomplete_data)

-- A malformed identifier hides results, so that nothing but a failure may be shown.
unfoldable pub guard_identifiers : Bool → CheckStatus × StatusReason → CheckStatus × StatusReason
guard_identifiers malformed (status, reason) =
    if malformed && not (is_down status || is_degraded status)
    then (CheckStatus.unknown, invalid_data)
    else (status, reason)

abbrev pub somes : List (Option ℕ) → List ℕ
somes [] = []
somes (none ∷ xs) = somes xs
somes (some x ∷ xs) = x ∷ somes xs

abbrev pub some_texts : List (Option Text) → List Text
some_texts [] = []
some_texts (none ∷ xs) = some_texts xs
some_texts (some x ∷ xs) = x ∷ some_texts xs

abbrev pub join_all : List (List Text) → List Text
join_all [] = []
join_all (x ∷ xs) = x ++ join_all xs

-- `max(xs) if xs else None`
abbrev pub maximum : List ℕ → Option ℕ
maximum [] = none
maximum (x ∷ xs) = elim (maximum xs) [ none ↦ some x | some m ↦ some (max x m) ]

abbrev pub minimum : List ℕ → Option ℕ
minimum [] = none
minimum (x ∷ xs) = elim (minimum xs) [ none ↦ some x | some m ↦ some (min x m) ]

-- `sorted(set(xs))`
unfoldable pub sorted_set : List Text → List Text
unfolding sort_by dedup
sorted_set xs = sort_by text_order (λ x. x) (dedup xs)

-- The sources all of whose results are up.
unfoldable pub sources_all_up : List CheckResultView → List Text
unfolding sources_of
sources_all_up views =
    keep (λ s. all (λ v. not (s == logical_source v) || is_up v.status) views)
      (sources_of every views)

-- The one target of the check, if its results agree on one.
abbrev pub single_target : List Text → List Text → Option Text
single_target (t ∷ []) targets = some t
single_target [] (t ∷ []) = some t
single_target _ _ = none

-- The views, in the order of their keys.
unfoldable pub sorted_views : List NormalizedCheckResult → ℕ → ℕ → List CheckResultView
unfolding sort_by result_view
sorted_views results now stale_after =
    sort_by key_order (λ v. key_tuple v.key) (map (result_view now stale_after) results)

unfoldable pub check_of_views :
    Text → Text → Option Text → List CheckResultView → ℕ → List Text → AggregatedCheck
unfolding decide_check guard_identifiers sorted_set sources_all_up sources_of make_parts
check_of_views check_id name group views min_failure_sources diagnostics =
    let parts = make_parts views min_failure_sources in
    let malformed = contains (codes "invalid_identifier") diagnostics in
    let (status, reason) = guard_identifiers malformed (decide_check parts) in
    let explicit = dedup (some_texts (map (λ v. v.target) views)) in
    let nested = join_all (map (λ v. map (λ t. t.name) v.targets) views) in
    let targets = sorted_set (explicit ++ nested) in
    let timestamps = somes (map (λ v. v.last_run_at) views) in
    let own = join_all (map (λ v. v.diagnostics) views) in
    let conflict = if ltb 1 (length explicit) then codes "conflicting_target" ∷ [] else [] in
    record {
      check_id = check_id;
      name = name;
      group = group;
      target = single_target explicit targets;
      targets = targets;
      status = status;
      status_reason = reason;
      last_checked_at = maximum timestamps;
      oldest_checked_at = minimum timestamps;
      sources_total = length (sources_of every views);
      sources_up = length (sources_all_up views);
      stale_results = length (keep stale_view views);
      data_incomplete =
          is_unknown status
          || any (λ p. p.data_incomplete) parts
          || (not (is_stale status) && any (λ p. is_stale p.status) parts)
          || malformed;
      latency = maximum (somes (map (λ v. v.duration) (keep up_view views)));
      scenarios =
          sorted_set (keep (λ s. not (s == default_scenario)) (map (λ v. v.key.scenario) views));
      parts = parts;
      results = views;
      diagnostics = sorted_set (diagnostics ++ own ++ conflict);
    }

unfoldable pub aggregate_check :
    Text
    → Text
    → Option Text
    → List NormalizedCheckResult
    → ℕ
    → ℤ
    → ℤ
    → List Text
    → Result AggregatedCheck
aggregate_check check_id name group results now stale_after min_failure_sources diagnostics = do
  raise_if (leb_ℤ stale_after (pos 0)) value_error
  raise_if (not (leb_ℤ (pos 1) min_failure_sources)) value_error
  ok (
      check_of_views check_id name group (sorted_views results now (pos_part stale_after))
        (pos_part min_failure_sources) diagnostics)
