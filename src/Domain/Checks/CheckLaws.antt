-- ===== src/Domain/Checks/CheckLaws.antt =====
-- When a check is up or down, in terms of its results.
use alert_hub.Prelude.{
  ℕ, ◌≤◌, ◌≡◌, ◌↔◌, refl, sym, ap, ◌∙◌, true, false, Option, List, Text, codes, text_eq, pair_eq,
  contains, any, all, length, nonempty, Memᴰ, Permᴰ, ok, length-keep-le, length-map, arith,
}
use mathlib.Core.Path.{subst}
use alert_hub.Prelude.Int.{ℤ, pos_part}
use alert_hub.Prelude.Sort.{sort_by-perm, length-perm}
use alert_hub.Domain.Checks.Types.{
  CheckStatus, NormalizedCheckResult, CheckResultView, AggregatedCheck, key_tuple, key_order,
  is_down, is_stale,
}
use alert_hub.Domain.Checks.Parts.{up_view, down_view, sources_of, make_parts}
use alert_hub.Domain.Checks.Sources.{
  Counts, IsSource, IsAllUp, sources_total-Counts, sources_up-Counts,
}
use alert_hub.Domain.Checks.PartLaws.{part_status-Decides}
use alert_hub.Domain.Checks.Aggregate.{
  decide_check, guard_identifiers, sorted_views, check_of_views, aggregate_check,
}
use alert_hub.Domain.Checks.Verdicts.{
  part_of, any-parts, down_of_is_down, all_up-parts, nonempty-parts, verdict_up, verdict_down,
  sorted_views-perm,
}

module _ (check_id name : Text) (group : Option Text) (results : List NormalizedCheckResult)
    (now : ℕ) (stale_after min_failure_sources : ℤ) (diagnostics : List Text) {c : AggregatedCheck}
    (done : aggregate_check check_id name group results now stale_after min_failure_sources
        diagnostics
      ≡ ok c) where
  threshold : 1 ≤ pos_part min_failure_sources
  unfolding aggregate_check
  threshold = ground arith

  the_result :
      check_of_views check_id name group
        (sorted_views results now (pos_part stale_after))
        (pos_part min_failure_sources)
        diagnostics
      ≡ c
  unfolding aggregate_check
  the_result = ground arith

  the_status :
      c.status
      ≡ (guard_identifiers
          (contains (codes "invalid_identifier") diagnostics)
          (decide_check (make_parts c.results (pos_part min_failure_sources)))).0
  unfolding check_of_views
  the_status =
      subst
        (λ (a : AggregatedCheck).
          a.status
          ≡ (guard_identifiers (contains (codes "invalid_identifier") diagnostics)
              (decide_check (make_parts a.results (pos_part min_failure_sources)))).0)
        the_result refl

  -- An aggregated check is up exactly if it has results, every one of them is up, and no malformed
  -- identifier was reported.
  pub aggregate_check_up : (c.status ≡ CheckStatus.up) ↔ (
      (nonempty c.results ≡ true)
      × (all up_view c.results ≡ true)
      × (contains (codes "invalid_identifier") diagnostics ≡ false))
  aggregate_check_up =
      let m = pos_part min_failure_sources in
      let bad = contains (codes "invalid_identifier") diagnostics in
      let v = verdict_up (make_parts c.results m) bad in
      let a = all_up-parts c.results m threshold in
      let n = nonempty-parts c.results m in
      (
        λ h. let (x, y, z) = v.0 (sym the_status ∙ h) in (sym n ∙ x, a.0 y, z),
        λ (x, y, z). the_status ∙ v.1 (n ∙ x, a.1 y, z),
      )

  -- An aggregated check is down exactly if some result lies in a part where no result is up and where
  -- the sources with a result down are at least the threshold; whatever identifiers were malformed.
  pub aggregate_check_down : (c.status ≡ CheckStatus.down) ↔ (
      (v : CheckResultView) × Memᴰ v c.results
      × (any up_view (part_of v c.results) ≡ false)
      × (pos_part min_failure_sources ≤ length (sources_of down_view (part_of v c.results))))
  aggregate_check_down =
      let m = pos_part min_failure_sources in
      let bad = contains (codes "invalid_identifier") diagnostics in
      let d = verdict_down (make_parts c.results m) bad in
      let a = any-parts is_down c.results m in
      (
        λ h.
            let (v, member, fv) = a.0 (d.0 (sym the_status ∙ h)) in
            let (x, y) =
              (part_status-Decides (part_of v c.results) m threshold).down_iff.0
                (down_of_is_down _ fv) in
            (v, member, x, y),
        λ (v, member, x, y).
            the_status
            ∙ d.1 (
                a.1 (
                  v,
                  member,
                  ap is_down
                      ((part_status-Decides (part_of v c.results) m threshold).down_iff.1 (x, y)),
                )),
      )

  -- The counts of a check: as many sources as the results name, as many of these as have all their
  -- results up, and no more stale results than results, of which there is one for each result given.
  pub aggregate_check-Counts :
      Counts (IsSource c.results) c.sources_total
      × Counts (λ (s : Text). IsSource c.results s × IsAllUp c.results s) c.sources_up
      × (c.stale_results ≤ length c.results)
      × (length c.results ≡ length results)
  unfolding check_of_views
  aggregate_check-Counts =
      subst
        (λ (a : AggregatedCheck).
          Counts (IsSource a.results) a.sources_total
          × Counts (λ (s : Text). IsSource a.results s × IsAllUp a.results s) a.sources_up
          × (a.stale_results ≤ length a.results)
          × (length a.results ≡ length results))
        the_result
        (let views = sorted_views results now (pos_part stale_after) in
          (
            sources_total-Counts views,
            sources_up-Counts views,
            length-keep-le (λ v. is_stale v.status) views,
            unfold sorted_views in
                (length-perm (sort_by-perm key_order (λ v. key_tuple v.key) _)
                  ∙ length-map _ results),
          ))

-- The same results in any order, of which a key identifies each, make the same check.
pub aggregate_check-perm :
    (check_id name : Text) (group : Option Text) (xs ys : List NormalizedCheckResult) (now : ℕ)
    (stale_after min_failure_sources : ℤ) (diagnostics : List Text)
    → ((a b : NormalizedCheckResult)
        → Memᴰ a xs
        → Memᴰ b xs
        → key_tuple a.key ≡ key_tuple b.key
        → a ≡ b)
    → Permᴰ xs ys
    → aggregate_check check_id name group xs now stale_after min_failure_sources diagnostics
      ≡ aggregate_check check_id name group ys now stale_after min_failure_sources diagnostics
unfolding aggregate_check
aggregate_check-perm check_id name group xs ys now stale_after min_failure_sources diagnostics h p =
    rw (sorted_views-perm xs ys now (pos_part stale_after) h p)
