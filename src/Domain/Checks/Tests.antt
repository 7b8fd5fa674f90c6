-- ===== src/Domain/Checks/Tests.antt =====
-- The theorems on checks, and on the adapters, at concrete inputs.
use alert_hub.Prelude.{
  ◌≡◌, ◌≤◌, ◌↔◌, refl, ap, text_eq, Bool, true, false, none, some, List, [], ◌∷◌, Memᴰ, Permᴰ, Text,
  codes, ok, arith, nonempty, length, contains, all, any,
}
use alert_hub.Prelude.Int.{pos}
use alert_hub.Toy.{pair_identified}
use alert_hub.Domain.Checks.Types.{
  CheckStatus, NormalizedCheckResult, CheckResultView, AggregatedCheck, key_tuple,
}
use alert_hub.Domain.Checks.Views.{result_view, Backs, result_view-Backs}
use alert_hub.Domain.Checks.Parts.{part_status, up_view, down_view, sources_of}
use alert_hub.Domain.Checks.PartLaws.{Decides, part_status-Decides}
use alert_hub.Domain.Checks.Aggregate.{sorted_views, check_of_views, aggregate_check}
use alert_hub.Domain.Checks.Verdicts.{part_of}
use alert_hub.Domain.Checks.Sources.{Counts, IsSource, IsAllUp}
use alert_hub.Domain.Checks.CheckLaws.{
  aggregate_check_up, aggregate_check_down, aggregate_check-Counts, aggregate_check-perm,
}

abbrev result_of : Text → Bool → NormalizedCheckResult
result_of source success = record {
  key = record { check_id = codes "c"; source = source; scenario = codes "s"; variant = codes "v" };
  target = none;
  success = some success;
  last_run_at = some 40;
  duration = some 5;
  ttfb = none;
  canaries = [];
  assertions = [];
  diagnostics = [];
  known_via_info = true;
  provisional_info_dimensions = false;
  state = none;
  targets = [];
  error_reasons = [];
  logical_source = none;
}

abbrev good : NormalizedCheckResult
good = result_of (codes "x") true

abbrev bad : NormalizedCheckResult
bad = result_of (codes "yy") false

result_view-Backs_example :
    Backs 50 100
      (result_view 50 100 bad).last_run_at
      (result_view 50 100 bad).state
      (result_view 50 100 bad).success
      (result_view 50 100 bad).status
result_view-Backs_example = result_view-Backs 50 100 bad

part_status-Decides_example :
    Decides
      (result_view 50 100 good ∷ result_view 50 100 bad ∷ [])
      1
      (part_status (result_view 50 100 good ∷ result_view 50 100 bad ∷ []) 1).0
part_status-Decides_example =
    part_status-Decides (result_view 50 100 good ∷ result_view 50 100 bad ∷ []) 1 (omega arith)

abbrev both : List NormalizedCheckResult
both = good ∷ bad ∷ []

abbrev agreed : AggregatedCheck
agreed = check_of_views (codes "c") (codes "check") none (sorted_views both 50 100) 1 []

aggregated :
    aggregate_check (codes "c") (codes "check") none both 50 (pos 100) (pos 1) [] ≡ ok agreed
unfolding aggregate_check
aggregated = refl

aggregate_check_up_example : (agreed.status ≡ CheckStatus.up) ↔ (
    (nonempty agreed.results ≡ true)
    × (all up_view agreed.results ≡ true)
    × (contains (codes "invalid_identifier") [] ≡ false))
aggregate_check_up_example =
    aggregate_check_up (codes "c") (codes "check") none both 50 (pos 100) (pos 1) [] aggregated

aggregate_check_down_example : (agreed.status ≡ CheckStatus.down) ↔ (
    (v : CheckResultView) × Memᴰ v agreed.results
    × (any up_view (part_of v agreed.results) ≡ false)
    × (1 ≤ length (sources_of down_view (part_of v agreed.results))))
aggregate_check_down_example =
    aggregate_check_down (codes "c") (codes "check") none both 50 (pos 100) (pos 1) [] aggregated

aggregate_check-Counts_example :
    Counts (IsSource agreed.results) agreed.sources_total
    × Counts (λ (s : Text). IsSource agreed.results s × IsAllUp agreed.results s) agreed.sources_up
    × (agreed.stale_results ≤ length agreed.results)
    × (length agreed.results ≡ 2)
aggregate_check-Counts_example =
    aggregate_check-Counts (codes "c") (codes "check") none both 50 (pos 100) (pos 1) [] aggregated

aggregate_check-perm_example :
    aggregate_check (codes "c") (codes "check") none both 50 (pos 100) (pos 1) []
    ≡ aggregate_check (codes "c") (codes "check") none (bad ∷ good ∷ []) 50 (pos 100) (pos 1) []
aggregate_check-perm_example =
    aggregate_check-perm (codes "c") (codes "check") none both (bad ∷ good ∷ []) 50 (pos 100)
      (pos 1) []
      (pair_identified (λ (r : NormalizedCheckResult). key_tuple r.key) good bad
        (λ h. absurd (omega (arith, ap (λ (k : Text × (Text × (Text × Text))). length k.1.0) h))))
      (Permᴰ.swap refl refl)
