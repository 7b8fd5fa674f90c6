-- ===== src/Domain/Checks/PartLaws.antt =====
-- When a part is up, down, degraded or stale.
use alert_hub.Prelude.{
  ℕ, ◌≤◌, ◌≡◌, ◌↔◌, refl, ◌∙◌, Bool, true, false, List, [], ◌∷◌, map, Text, text_eq, any, all, keep,
  length, nonempty, ltb, arith,
}
use alert_hub.Prelude.Sets.{dedup}
use alert_hub.Domain.Checks.Types.{CheckStatus, CheckResultView, logical_source}
use alert_hub.Domain.Checks.Parts.{up_view, down_view, stale_view, sources_of, part_status}

length-dedup_pos : (xs : List Text) → ltb 0 (length (dedup xs)) ≡ nonempty xs
unfolding dedup
length-dedup_pos [] = refl
length-dedup_pos (x ∷ []) = refl
length-dedup_pos (x ∷ y ∷ xs) = ground (arith, length-dedup_pos (y ∷ xs))

nonempty-map-keep :
    (p : CheckResultView → Bool) (rs : List CheckResultView)
    → nonempty (map logical_source (keep p rs)) ≡ any p rs
nonempty-map-keep p [] = refl
nonempty-map-keep p (r ∷ rs) = ground (arith, nonempty-map-keep p rs)

-- There is such a source exactly if there is such a result.
pub sources_of_pos :
    (p : CheckResultView → Bool) (rs : List CheckResultView)
    → ltb 0 (length (sources_of p rs)) ≡ any p rs
unfolding sources_of
sources_of_pos p rs = length-dedup_pos (map logical_source (keep p rs)) ∙ nonempty-map-keep p rs

all_up-any_up :
    (rs : List CheckResultView) → nonempty rs ≡ true → all up_view rs ≡ true → any up_view rs ≡ true
all_up-any_up [] e h = cc
all_up-any_up (r ∷ rs) e h = ground arith

all_up-any_down : (rs : List CheckResultView) → all up_view rs ≡ true → any down_view rs ≡ false
all_up-any_down [] h = refl
all_up-any_down (r ∷ rs) h = ground (arith, all_up-any_down rs)

all_stale-any_up : (rs : List CheckResultView) → all stale_view rs ≡ true → any up_view rs ≡ false
all_stale-any_up [] h = refl
all_stale-any_up (r ∷ rs) h = ground (arith, all_stale-any_up rs)

all_stale-any_down :
    (rs : List CheckResultView) → all stale_view rs ≡ true → any down_view rs ≡ false
all_stale-any_down [] h = refl
all_stale-any_down (r ∷ rs) h = ground (arith, all_stale-any_down rs)

-- One status for each situation of the part.
pub record Decides (rs : List CheckResultView) (min_failure_sources : ℕ) (s : CheckStatus)
    : Type 0 where
  pub degraded_iff :
      (s ≡ CheckStatus.degraded) ↔ ((any up_view rs ≡ true) × (any down_view rs ≡ true))
  pub down_iff :
      (s ≡ CheckStatus.down)
      ↔ ((any up_view rs ≡ false) × (min_failure_sources ≤ length (sources_of down_view rs)))
  pub up_iff : (s ≡ CheckStatus.up) ↔ ((nonempty rs ≡ true) × (all up_view rs ≡ true))
  pub stale_iff : (s ≡ CheckStatus.stale) ↔ ((nonempty rs ≡ true) × (all stale_view rs ≡ true))

-- With a threshold of at least one, a part is degraded exactly if it has a fresh success and a fresh
-- failure; down exactly if it has no fresh success and at least the threshold of sources with a
-- fresh failure; up exactly if it has results and all are up; stale exactly if it has results and
-- all are stale.
pub part_status-Decides :
    (rs : List CheckResultView) (min_failure_sources : ℕ)
    → 1 ≤ min_failure_sources
    → Decides rs min_failure_sources (part_status rs min_failure_sources).0
unfolding part_status
part_status-Decides rs m h =
    let ups = sources_of_pos up_view rs in
    let downs = sources_of_pos down_view rs in
    let a = all_up-any_up rs in
    let b = all_up-any_down rs in
    let c = all_stale-any_up rs in
    let d = all_stale-any_down rs in
    record {
      degraded_iff = (ground (arith, ups, downs), ground (arith, ups, downs));
      down_iff = (ground (arith, ups, downs), ground (arith, ups, downs));
      up_iff = (ground (arith, ups, downs), ground (arith, ups, downs, a, b));
      stale_iff = (ground (arith, ups, downs), ground (arith, ups, downs, a, c, d));
    }
