-- ===== src/Domain/Checks/Sources.antt =====
-- Which logical sources the counts of a check count.
use alert_hub.Prelude.{
  ℕ, ◌≡◌, ◌≢◌, ◌↔◌, ◌⊎◌, refl, sym, ap, ◌∙◌, true, not, ◌||◌, ◌==◌, List, [], ◌∷◌, map, Text,
  text_eq, contains, all, keep, length, Distinct, Memᴰ, All, arith, mem_of_contains,
  contains_of_mem,
}
use alert_hub.Prelude.Sets.{dedup-Distinct, contains-dedup, keep-Distinct}
use alert_hub.Prelude.Members.{mem_keep, mem_of_contains-map, contains-map}
use alert_hub.Prelude.Permuted.{mem_of_keep, true_of_keep}
use alert_hub.Domain.Checks.Types.{CheckResultView, logical_source, is_up}
use alert_hub.Domain.Checks.Parts.{up_view, every, sources_of}
use alert_hub.Domain.Checks.Aggregate.{sources_all_up}

-- Exactly so many texts have the property: there is a list of them without repetition.
abbrev pub Counts : (Text → Type 0) → ℕ → Type 0
Counts P n = (xs : List Text) × Distinct xs × (length xs ≡ n) × ((s : Text) → Memᴰ s xs ↔ P s)

-- A source that some result is of.
abbrev pub IsSource : List CheckResultView → Text → Type 0
IsSource views s = (v : CheckResultView) × Memᴰ v views × (s ≡ logical_source v)

-- Each result is of another source or up.
abbrev pub IsAllUp : List CheckResultView → Text → Type 0
IsAllUp views s = All (λ (v : CheckResultView). (s ≢ logical_source v) ⊎ (up_view v ≡ true)) views

sources_of-IsSource :
    (views : List CheckResultView) (s : Text) → Memᴰ s (sources_of every views) ↔ IsSource views s
unfolding sources_of
sources_of-IsSource views s =
    let kept = keep every views in
    (
      λ m.
          let (v, n, p) =
            mem_of_contains-map logical_source s kept
              (sym (contains-dedup s (map logical_source kept)) ∙ contains_of_mem s _ m) in
          (v, mem_of_keep every views n, p),
      λ (v, n, p). mem_of_contains s _ (
          contains-dedup s (map logical_source kept)
          ∙ ap (λ t. contains t (map logical_source kept)) p
          ∙ contains-map logical_source kept (mem_keep every views n refl)),
    )

sources_of-Distinct : (views : List CheckResultView) → Distinct (sources_of every views)
unfolding sources_of
sources_of-Distinct views = dedup-Distinct (map logical_source (keep every views))

all-IsAllUp :
    (s : Text) (views : List CheckResultView)
    → all (λ v. not (s == logical_source v) || is_up v.status) views ≡ true
    → IsAllUp views s
all-IsAllUp s [] h = tt
all-IsAllUp s (v ∷ views) h = (
  ground (arith, h, text_eq.beq_iff s (logical_source v)),
  all-IsAllUp s views (ground (arith, h)),
)

IsAllUp-all :
    (s : Text) (views : List CheckResultView)
    → IsAllUp views s
    → all (λ v. not (s == logical_source v) || is_up v.status) views ≡ true
IsAllUp-all s [] h = refl
IsAllUp-all s (v ∷ views) (here, rest) =
    ground (arith, here, text_eq.beq_iff s (logical_source v), IsAllUp-all s views rest)

pub sources_total-Counts :
    (views : List CheckResultView) → Counts (IsSource views) (length (sources_of every views))
sources_total-Counts views =
    (sources_of every views, sources_of-Distinct views, refl, sources_of-IsSource views)

pub sources_up-Counts :
    (views : List CheckResultView)
    → Counts (λ s. IsSource views s × IsAllUp views s) (length (sources_all_up views))
unfolding sources_all_up
sources_up-Counts views =
    let up = λ (s : Text). all (λ v. not (s == logical_source v) || is_up v.status) views in
    let sources = sources_of every views in
    (
      keep up sources,
      keep-Distinct up sources (sources_of-Distinct views),
      refl,
      λ s. (
        λ m. (
          (sources_of-IsSource views s).0 (mem_of_keep up sources m),
          all-IsAllUp s views (true_of_keep up sources m),
        ),
        λ (m, h). mem_keep up sources ((sources_of-IsSource views s).1 m) (IsAllUp-all s views h),
      ),
    )
