-- ===== src/Domain/Checks/Verdicts.antt =====
-- The parts of a check in terms of its results.
use alert_hub.Prelude.{
  ℕ, ◌≤◌, ◌≡◌, ◌↔◌, refl, sym, ap, ◌∙◌, Bool, true, false, List, [], ◌∷◌, map, Text, text_eq,
  pair_eq, contains, mem_of_contains, contains_of_mem, beq_self, any, all, keep, length, nonempty,
  Memᴰ, Permᴰ, length-keep-le, length-map, arith,
}
use mathlib.Core.List.Permᴰ
use alert_hub.Prelude.Members.{
  mem_all, all_of_mem, any_of_mem, mem_of_any, mem_keep, all-keep, nonempty_of_mem, all-map,
  any-map, nonempty-map, contains-map, mem_of_contains-map, mem_of_mem-map,
}
use alert_hub.Prelude.Order.{pair_order, text_order}
use alert_hub.Prelude.Sets.{contains-dedup, contains-perm, length-dedup-le}
use alert_hub.Prelude.Sort.{sort_by-perm, sort_by-perm_eq}
use alert_hub.Domain.Checks.Types.{
  CheckStatus, NormalizedCheckResult, CheckResultView, CheckPart, logical_source, key_tuple,
  key_order, is_up, is_down, is_degraded,
}
use alert_hub.Domain.Checks.Views.{result_view}
use alert_hub.Domain.Checks.Parts.{
  up_view, sources_of, part_status, part_key, in_part, make_part, part_keys, make_parts,
}
use alert_hub.Domain.Checks.PartLaws.{part_status-Decides}
use alert_hub.Domain.Checks.Aggregate.{decide_check, guard_identifiers, sorted_views}

-- The results of the part that a result belongs to.
abbrev pub part_of : CheckResultView → List CheckResultView → List CheckResultView
part_of v views = keep (in_part (part_key v)) views

pub contains-part_keys :
    (k : Text × Text) (views : List CheckResultView)
    → contains k (part_keys views) ≡ contains k (map part_key views)
unfolding part_keys
contains-part_keys k views =
    contains-perm k (sort_by-perm (pair_order text_order text_order) (λ k. k) _)
    ∙ contains-dedup k (map part_key views)

pub mem-part_keys :
    {v : CheckResultView} (views : List CheckResultView)
    → Memᴰ v views
    → Memᴰ (part_key v) (part_keys views)
mem-part_keys {v} views m =
    mem_of_contains (part_key v) (part_keys views)
      (contains-part_keys (part_key v) views ∙ contains-map part_key views m)

pub part_keys-mem :
    {k : Text × Text} (views : List CheckResultView)
    → Memᴰ k (part_keys views)
    → (v : CheckResultView) × Memᴰ v views × (k ≡ part_key v)
part_keys-mem {k} views m =
    mem_of_contains-map part_key k views
      (sym (contains-part_keys k views) ∙ contains_of_mem k (part_keys views) m)

-- Some part has a status exactly if some result's part has it.
pub any-parts :
    (f : CheckStatus → Bool) (views : List CheckResultView) (m : ℕ)
    → (any (λ p. f p.status) (make_parts views m) ≡ true)
      ↔ ((v : CheckResultView) × Memᴰ v views × (f (part_status (part_of v views) m).0 ≡ true))
unfolding make_parts make_part
any-parts f views m = (
  λ h.
      let (k, inside, fk) =
        mem_of_any (λ k. f (make_part views m k).status) (part_keys views)
          (sym (any-map (λ (p : CheckPart). f p.status) (make_part views m) (part_keys views))
            ∙ h) in
      let (v, member, e) = part_keys-mem views inside in (v, member, rw (← e) fk),
  λ (v, member, fv).
      any-map (λ (p : CheckPart). f p.status) (make_part views m) (part_keys views)
      ∙ any_of_mem (λ k. f (make_part views m k).status) (part_keys views)
          (mem-part_keys views member) fv,
)

pub up_of_is_up : (s : CheckStatus) → is_up s ≡ true → s ≡ CheckStatus.up
up_of_is_up s h = ground arith

pub down_of_is_down : (s : CheckStatus) → is_down s ≡ true → s ≡ CheckStatus.down
down_of_is_down s h = ground arith

pub all_up-parts :
    (views : List CheckResultView) (m : ℕ)
    → 1 ≤ m
    → (all (λ p. is_up p.status) (make_parts views m) ≡ true) ↔ (all up_view views ≡ true)
unfolding make_parts make_part
all_up-parts views m h = (
  λ parts_up. all_of_mem up_view views (λ v member.
      mem_all up_view (part_of v views)
        ((part_status-Decides (part_of v views) m h).up_iff.0 (
          up_of_is_up _ (
            mem_all (λ k. is_up (make_part views m k).status) (part_keys views)
              (sym (
                  all-map (λ (p : CheckPart). is_up p.status) (make_part views m) (part_keys views))
                ∙ parts_up)
              (mem-part_keys views member)))).1
        (mem_keep (in_part (part_key v)) views member (beq_self (part_key v)))),
  λ all_up.
      all-map (λ (p : CheckPart). is_up p.status) (make_part views m) (part_keys views)
      ∙ all_of_mem (λ k. is_up (make_part views m k).status) (part_keys views)
          (λ k inside.
            let (v, member, e) = part_keys-mem views inside in
            rw e (
              ap is_up (
                (part_status-Decides (part_of v views) m h).up_iff.1 (
                  nonempty_of_mem (part_of v views)
                      (mem_keep (in_part (part_key v)) views member (beq_self (part_key v))),
                  all-keep up_view (in_part (part_key v)) views all_up,
                )))),
)

pub nonempty-parts :
    (views : List CheckResultView) (m : ℕ) → nonempty (make_parts views m) ≡ nonempty views
unfolding make_parts
nonempty-parts [] m = nonempty-map (make_part [] m) (part_keys []) ∙ (unfold part_keys in refl)
nonempty-parts (v ∷ views) m =
    nonempty-map (make_part (v ∷ views) m) (part_keys (v ∷ views))
    ∙ nonempty_of_mem (part_keys (v ∷ views)) (mem-part_keys (v ∷ views) (Memᴰ.head refl))

pub all_up-any :
    (parts : List CheckPart)
    → all (λ p. is_up p.status) parts ≡ true
    → (any (λ p. is_down p.status) parts ≡ false) × (any (λ p. is_degraded p.status) parts ≡ false)
all_up-any [] h = (refl, refl)
all_up-any (p ∷ parts) h = ground (arith, all_up-any parts)

-- The final status is up exactly if there are parts, all up, and identifiers were sound.
pub verdict_up :
    (parts : List CheckPart) (malformed : Bool)
    → ((guard_identifiers malformed (decide_check parts)).0 ≡ CheckStatus.up)
      ↔ ((nonempty parts ≡ true) × (all (λ p. is_up p.status) parts ≡ true) × (malformed ≡ false))
unfolding guard_identifiers decide_check
verdict_up parts malformed = (ground arith, ground (arith, all_up-any parts))

pub verdict_down :
    (parts : List CheckPart) (malformed : Bool)
    → ((guard_identifiers malformed (decide_check parts)).0 ≡ CheckStatus.down)
      ↔ (any (λ p. is_down p.status) parts ≡ true)
unfolding guard_identifiers decide_check
verdict_down parts malformed = (ground arith, ground arith)

pub sources_of-length-le :
    (p : CheckResultView → Bool) (views : List CheckResultView)
    → length (sources_of p views) ≤ length views
unfolding sources_of
sources_of-length-le p views = omega (
  arith,
  length-dedup-le (map logical_source (keep p views)),
  length-map logical_source (keep p views),
  length-keep-le p views,
)

pub key-result_view :
    (now stale_after : ℕ) (r : NormalizedCheckResult) → (result_view now stale_after r).key ≡ r.key
unfolding result_view
key-result_view now stale_after r = refl

pub sorted_views-perm :
    (xs ys : List NormalizedCheckResult) (now stale_after : ℕ)
    → ((a b : NormalizedCheckResult)
        → Memᴰ a xs
        → Memᴰ b xs
        → key_tuple a.key ≡ key_tuple b.key
        → a ≡ b)
    → Permᴰ xs ys
    → sorted_views xs now stale_after ≡ sorted_views ys now stale_after
unfolding sorted_views
sorted_views-perm xs ys now stale_after h p =
    let view = result_view now stale_after in
    sort_by-perm_eq key_order (λ v. key_tuple v.key) (map view xs) (map view ys)
      (λ u v mu mv e.
        let (a, ma, pa) = mem_of_mem-map view xs mu in
        let (b, mb, pb) = mem_of_mem-map view xs mv in
        let same : a ≡ b = h a b ma mb (
          ap key_tuple (sym (key-result_view now stale_after a))
          ∙ ap (λ w. key_tuple (w.key)) (sym pa)
          ∙ e
          ∙ ap (λ w. key_tuple (w.key)) pb
          ∙ ap key_tuple (key-result_view now stale_after b)) in
        pa ∙ ap view same ∙ sym pb)
      (Permᴰ.map view p)
