-- ===== src/Application/Incidents/Sequence.antt =====
-- The sequence numbers that `_next_origin_seq` gives the cluster events of a node.
use alert_hub.Prelude.{
  ◌+◌, ◌≡◌, ◌∙◌, refl, sym, ap, Bool, true, ◌&&◌, List, [], ◌∷◌, Text, text_eq, nat_eq, ◌==◌, keep,
  length, ok, ok_injective, inl, inr, Bool-cases, if◌then◌else◌, arith,
}
use mathlib.Core.Path.{subst}
use alert_hub.Domain.Normalized.{NormalizedEvent}
use alert_hub.Application.Rows.{ClusterEvent, Source}
use alert_hub.Application.Store.{Context, Store, max_seq, next_origin_seq}
use alert_hub.Application.Incidents.Ingest.{Intake, ingest_one, ingest_normalized_events, no_intake}
use alert_hub.Application.Incidents.Effects.{Adds}
use alert_hub.Application.Incidents.Redelivery.{ingest_one-cases, batch_cons}

-- The events that a node recorded.
abbrev pub recorded_by : Text → List ClusterEvent → List ClusterEvent
recorded_by origin es = keep (λ (e : ClusterEvent). origin == e.origin_node_id) es

-- The events of the origin are numbered from 1: the number of each is how many they were with it.
unfoldable pub is_gapless : Text → List ClusterEvent → Bool
is_gapless origin [] = true
is_gapless origin (e ∷ es) =
    let rest = is_gapless origin es in
    if origin == e.origin_node_id
    then (e.origin_seq == length (recorded_by origin es) + 1) && rest
    else rest

-- The largest number of an origin without gaps is the number of its events.
max_seq-count :
    (origin : Text) (es : List ClusterEvent)
    → is_gapless origin es ≡ true
    → max_seq origin es ≡ length (recorded_by origin es)
unfolding is_gapless max_seq
max_seq-count origin [] h = refl
max_seq-count origin (e ∷ es) h = elim (Bool-cases (origin == e.origin_node_id)) [
  | inl own ↦ grind (
    arith,
    h,
    own,
    max_seq-count origin es,
    nat_eq.beq_iff e.origin_seq (length (recorded_by origin es) + 1),
  )
  | inr other ↦ grind (arith, h, other, max_seq-count origin es)
]

next-IsGapless :
    (origin node : Text) (e : ClusterEvent) (es : List ClusterEvent)
    → e.origin_node_id ≡ node
    → e.origin_seq ≡ max_seq node es + 1
    → is_gapless origin es ≡ true
    → is_gapless origin (e ∷ es) ≡ true
unfolding is_gapless
next-IsGapless origin node e es own seq h = ground (
  arith,
  own,
  seq,
  h,
  max_seq-count origin es h,
  text_eq.beq_iff origin e.origin_node_id,
  nat_eq.beq_iff e.origin_seq (length (recorded_by origin es) + 1),
)

Adds-IsGapless :
    {c : Context} {key : Text} {s s' : Store} (origin : Text)
    → Adds c key s s'
    → is_gapless origin s.cluster_events ≡ true
    → is_gapless origin s'.cluster_events ≡ true
unfolding next_origin_seq
Adds-IsGapless {c} {key} {s} origin a h =
    subst (λ es. is_gapless origin es ≡ true) (sym a.events)
      (next-IsGapless origin c.node_id a.event s.cluster_events a.origin a.seq h)

ingest_one-IsGapless :
    (c : Context) (source : Source) (e : NormalizedEvent) (s : Store) (origin : Text)
    {r : Store × Intake}
    → ingest_one c source e s ≡ ok r
    → is_gapless origin s.cluster_events ≡ true
    → is_gapless origin r.0.cluster_events ≡ true
ingest_one-IsGapless c source e s origin h gapless = elim (ingest_one-cases c source e s h) [
  | inl (_, same) ↦ ap (λ (x : Store). is_gapless origin x.cluster_events) same ∙ gapless
  | inr a ↦ Adds-IsGapless origin a gapless
]

-- A batch that goes through keeps the sequence numbers of an origin without gaps, if they had none:
-- each of its events has the number of events that the origin had recorded with it.
pub ingest_normalized_events-is_gapless :
    (c : Context) (source : Source) (es : List NormalizedEvent) (s : Store) (origin : Text)
    {r : Store × Intake}
    → ingest_normalized_events c source es s ≡ ok r
    → is_gapless origin s.cluster_events ≡ true
    → is_gapless origin r.0.cluster_events ≡ true
unfolding ingest_normalized_events
ingest_normalized_events-is_gapless c source [] s origin {r} h gapless =
    ap (λ (x : Store × Intake). is_gapless origin x.0.cluster_events)
      (sym (ok_injective (s, no_intake) r h))
    ∙ gapless
ingest_normalized_events-is_gapless c source (e ∷ es) s origin h gapless =
    let (p, q, one, others, same) = batch_cons c source e es s h in
    ap (λ (x : Store). is_gapless origin x.cluster_events) (sym same)
    ∙ ingest_normalized_events-is_gapless c source es p.0 origin others
        (ingest_one-IsGapless c source e s origin one gapless)
