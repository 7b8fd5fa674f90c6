-- ===== src/Domain/Checks/Parts.antt =====
-- `_part_status`, and the parts that `aggregate_check` builds.
use alert_hub.Prelude.{
  ℕ, Bool, true, not, ◌&&◌, ◌||◌, List, map, Text, ◌==◌, text_eq, pair_eq, nat_beq, any, all, keep,
  length, nonempty, ltb, leb, if◌then◌else◌,
}
use alert_hub.Prelude.Order.{pair_order, text_order}
use alert_hub.Prelude.Sets.{dedup}
use alert_hub.Prelude.Sort.{sort_by}
use alert_hub.Domain.Checks.Types.{
  CheckStatus, StatusReason, CheckResultView, CheckPart, logical_source, is_up, is_down, is_stale,
  is_unknown, is_invalid_data, mixed_results, confirmed_failures, all_sources_up,
  expired_measurements, invalid_data, insufficient_sources, incomplete_data,
}

abbrev pub up_view : CheckResultView → Bool
up_view v = is_up v.status

abbrev pub down_view : CheckResultView → Bool
down_view v = is_down v.status

abbrev pub stale_view : CheckResultView → Bool
stale_view v = is_stale v.status

abbrev pub unknown_view : CheckResultView → Bool
unknown_view v = is_unknown v.status

-- `{_logical_source(result) for result in results if p(result)}`
unfoldable pub sources_of : (CheckResultView → Bool) → List CheckResultView → List Text
unfolding dedup
sources_of p results = dedup (map logical_source (keep p results))

abbrev pub every : CheckResultView → Bool
every v = true

-- The reason of a part whose status is unknown.
abbrev pub unknown_reason : List CheckResultView → ℕ → ℕ → StatusReason
unknown_reason results failures min_failure_sources =
    if any (λ v. is_invalid_data v.status_reason) results
    then invalid_data
    else if ltb 0 failures && ltb failures min_failure_sources
    then insufficient_sources
    else incomplete_data

-- The `if` chain on the numbers of sources with a fresh success and with a fresh failure.
unfoldable pub decide_part : List CheckResultView → ℕ → ℕ → ℕ → CheckStatus × StatusReason
decide_part results successes failures min_failure_sources =
    if ltb 0 successes && ltb 0 failures
    then (CheckStatus.degraded, mixed_results)
    else if not (ltb 0 successes) && leb min_failure_sources failures
    then (CheckStatus.down, confirmed_failures)
    else if nonempty results && all up_view results
    then (CheckStatus.up, all_sources_up)
    else if nonempty results && all stale_view results
    then (CheckStatus.stale, expired_measurements)
    else (CheckStatus.unknown, unknown_reason results failures min_failure_sources)

unfoldable pub is_incomplete : CheckStatus → List CheckResultView → Bool
is_incomplete status results =
    let stale_count = length (keep stale_view results) in
    is_unknown status
    || ltb 0 (length (keep unknown_view results))
    || any (λ v. v.data_incomplete) results
    || (ltb 0 stale_count && not (nat_beq stale_count (length results)))

unfoldable pub part_status : List CheckResultView → ℕ → CheckStatus × (StatusReason × Bool)
unfolding decide_part is_incomplete sources_of
part_status results min_failure_sources =
    let (status, reason) =
      decide_part results (length (sources_of up_view results))
        (length (sources_of down_view results)) min_failure_sources in
    (status, (reason, is_incomplete status results))

-- `(result.key.scenario, result.key.variant)`
abbrev pub part_key : CheckResultView → Text × Text
part_key v = (v.key.scenario, v.key.variant)

abbrev pub in_part : Text × Text → CheckResultView → Bool
in_part k v = k == part_key v

unfoldable pub make_part : List CheckResultView → ℕ → Text × Text → CheckPart
unfolding part_status sources_of
make_part views min_failure_sources k =
    let part_results = keep (in_part k) views in
    let (status, (reason, incomplete)) = part_status part_results min_failure_sources in
    record {
      scenario = k.0;
      variant = k.1;
      status = status;
      status_reason = reason;
      sources_total = length (sources_of every part_results);
      sources_up = length (sources_of up_view part_results);
      stale_results = length (keep stale_view part_results);
      data_incomplete = incomplete;
    }

-- `sorted(by_part)`: the keys of the parts.
unfoldable pub part_keys : List CheckResultView → List (Text × Text)
unfolding dedup sort_by
part_keys views = sort_by (pair_order text_order text_order) (λ k. k) (dedup (map part_key views))

unfoldable pub make_parts : List CheckResultView → ℕ → List CheckPart
unfolding make_part part_keys
make_parts views min_failure_sources = map (make_part views min_failure_sources) (part_keys views)
