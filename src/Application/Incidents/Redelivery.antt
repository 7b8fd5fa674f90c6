-- ===== src/Application/Incidents/Redelivery.antt =====
-- Events that are delivered again to `ingest_normalized_events`.
use alert_hub.Prelude.{
  ◌≡◌, ◌∙◌, ◌⊎◌, refl, sym, ap, Bool, true, Option, none, some, is_some, List, [], ◌∷◌, Text,
  text_eq, All, find, length, ok, ◌>>=◌, >>=-eq-ok, ok_injective, inl, inr, arith,
}
use mathlib.Core.Path.{subst}
use alert_hub.Runtime.{Runtime}
use alert_hub.Domain.Normalized.{NormalizedEvent, event_key}
use alert_hub.Application.Rows.{IncidentEvent, Source}
use alert_hub.Application.Store.{Context, Store, find_event, get_incident, has_key}
use alert_hub.Application.Incidents.Ingest.{
  Intake, ingest_new, ingest_found, ingest_one, ingest_normalized_events, touched, no_intake,
  join_intake,
}
use alert_hub.Application.Incidents.Effects.{Adds, ingest_new-Adds}

-- The timeline has an event with the key.
abbrev pub knows : Text → Store → Bool
knows key s = is_some (find_event key s)

pub Adds-knows : {c : Context} {key : Text} {s s' : Store} → Adds c key s s' → knows key s' ≡ true
Adds-knows {c} {key} {s} {s'} a =
    subst (λ rows. is_some (find (has_key key) rows) ≡ true) (sym a.rows)
      (ground (arith, text_eq.beq_iff key a.row.event_key, a.row_key))

pub Adds-knows_still :
    {c : Context} {key : Text} {s s' : Store} (k : Text)
    → Adds c key s s'
    → knows k s ≡ true
    → knows k s' ≡ true
Adds-knows_still k a known =
    subst (λ rows. is_some (find (has_key k) rows) ≡ true) (sym a.rows) (ground (arith, known))

ingest_found-cases :
    (c : Context) (source : Source) (e : NormalizedEvent) (key : Text) (s : Store)
    (o : Option IncidentEvent) {r : Store × Intake}
    → ingest_found c source e key s o ≡ ok r
    → ((is_some o ≡ true) × (r.0 ≡ s)) ⊎ Adds c key s r.0
unfolding ingest_found
ingest_found-cases c source e key s (some row) {r} h =
    inl (refl, ap (λ (x : Store × Intake). x.0) (sym (ok_injective _ r h)))
ingest_found-cases c source e key s none {r} h =
    let (q, added, done) =
      >>=-eq-ok (ingest_new c source e key s)
        (λ q. ok (q.0, record { affected = q.1.id ∷ []; duplicates = 0 })) h in
    inr (
      subst (λ (x : Store × Intake). Adds c key s x.0)
        (ok_injective (q.0, record { affected = q.1.id ∷ []; duplicates = 0 }) r done)
        (ingest_new-Adds c source e key s added))

-- One round either finds the key and changes nothing, or adds the rows of the event.
pub ingest_one-cases :
    (c : Context) (source : Source) (e : NormalizedEvent) (s : Store) {r : Store × Intake}
    → ingest_one c source e s ≡ ok r
    → ((knows (event_key c.rt e source.id) s ≡ true) × (r.0 ≡ s))
      ⊎ Adds c (event_key c.rt e source.id) s r.0
unfolding ingest_one
ingest_one-cases c source e s h =
    let key = event_key c.rt e source.id in ingest_found-cases c source e key s (find_event key s) h

ingest_one-knows :
    (c : Context) (source : Source) (e : NormalizedEvent) (s : Store) {r : Store × Intake}
    → ingest_one c source e s ≡ ok r
    → knows (event_key c.rt e source.id) r.0 ≡ true
ingest_one-knows c source e s h = elim (ingest_one-cases c source e s h) [
  | inl (known, same) ↦ ap (knows (event_key c.rt e source.id)) same ∙ known
  | inr a ↦ Adds-knows a
]

ingest_one-knows_still :
    (c : Context) (source : Source) (e : NormalizedEvent) (s : Store) (k : Text)
    {r : Store × Intake}
    → ingest_one c source e s ≡ ok r
    → knows k s ≡ true
    → knows k r.0 ≡ true
ingest_one-knows_still c source e s k h known = elim (ingest_one-cases c source e s h) [
  | inl (_, same) ↦ ap (knows k) same ∙ known
  | inr a ↦ Adds-knows_still k a known
]

-- A batch that went through is a first round and the rest.
pub batch_cons :
    (c : Context) (source : Source) (e : NormalizedEvent) (es : List NormalizedEvent) (s : Store)
    {r : Store × Intake}
    → ingest_normalized_events c source (e ∷ es) s ≡ ok r
    → (p q : Store × Intake) × (ingest_one c source e s ≡ ok p)
      × (ingest_normalized_events c source es p.0 ≡ ok q)
      × (q.0 ≡ r.0)
unfolding ingest_normalized_events
batch_cons c source e es s {r} h =
    let (p, one, rest) =
      >>=-eq-ok (ingest_one c source e s)
        (λ p. ingest_normalized_events c source es p.0 >>= λ q. ok (q.0, join_intake p.1 q.1)) h in
    let (q, others, done) =
      >>=-eq-ok (ingest_normalized_events c source es p.0) (λ q. ok (q.0, join_intake p.1 q.1))
        rest in
    (
      p,
      q,
      one,
      others,
      ap (λ (x : Store × Intake). x.0) (ok_injective (q.0, join_intake p.1 q.1) r done),
    )

batch-knows_still :
    (c : Context) (source : Source) (es : List NormalizedEvent) (s : Store) (k : Text)
    {r : Store × Intake}
    → ingest_normalized_events c source es s ≡ ok r
    → knows k s ≡ true
    → knows k r.0 ≡ true
unfolding ingest_normalized_events
batch-knows_still c source [] s k {r} h known =
    ap (λ (x : Store × Intake). knows k x.0) (sym (ok_injective (s, no_intake) r h)) ∙ known
batch-knows_still c source (e ∷ es) s k h known =
    let (p, q, one, others, same) = batch_cons c source e es s h in
    ap (knows k) (sym same)
    ∙ batch-knows_still c source es p.0 k others (ingest_one-knows_still c source e s k one known)

batch-knows :
    (c : Context) (source : Source) (es : List NormalizedEvent) (s : Store) {r : Store × Intake}
    → ingest_normalized_events c source es s ≡ ok r
    → All (λ (e : NormalizedEvent). knows (event_key c.rt e source.id) r.0 ≡ true) es
batch-knows c source [] s h = tt
batch-knows c source (e ∷ es) s {r} h =
    let (p, q, one, others, same) = batch_cons c source e es s h in
    subst
      (λ (x : Store).
        All (λ (d : NormalizedEvent). knows (event_key c.rt d source.id) x ≡ true) (e ∷ es))
      same
      (
        batch-knows_still c source es p.0 (event_key c.rt e source.id) others
            (ingest_one-knows c source e s one),
        batch-knows c source es p.0 others,
      )

ingest_found_known :
    (c : Context) (source : Source) (e : NormalizedEvent) (key : Text) (s : Store)
    (o : Option IncidentEvent)
    → is_some o ≡ true
    → (p : Intake) × (ingest_found c source e key s o ≡ ok (s, p)) × (p.duplicates ≡ 1)
unfolding ingest_found
ingest_found_known c source e key s (some row) h =
    (record { affected = touched (get_incident row.incident_id s); duplicates = 1 }, refl, refl)
ingest_found_known c source e key s none h = cc

-- Events whose keys are all known are all duplicates.
pub ingest_known :
    (c : Context) (source : Source) (es : List NormalizedEvent) (s : Store)
    → All (λ (e : NormalizedEvent). knows (event_key c.rt e source.id) s ≡ true) es
    → (p : Intake) × (ingest_normalized_events c source es s ≡ ok (s, p))
      × (p.duplicates ≡ length es)
unfolding ingest_normalized_events ingest_one
ingest_known c source [] s h = (no_intake, refl, refl)
ingest_known c source (e ∷ es) s (known, others) =
    let key = event_key c.rt e source.id in
    let (p, one, once) = ingest_found_known c source e key s (find_event key s) known in
    let (q, rest, count) = ingest_known c source es s others in
    (
      join_intake p q,
      ap
            (λ m. m >>= λ r.
              ingest_normalized_events c source es r.0 >>= λ t. ok (t.0, join_intake r.1 t.1))
            one
          ∙ ap (λ m. m >>= λ t. ok (t.0, join_intake p t.1)) rest,
      omega (arith, once, count),
    )

-- A batch that was taken in once, delivered again at any later moment, to the node or to another one
-- that has the rows and the same runtime, changes no row, and every one of its events is counted as a
-- duplicate.
pub ingest_normalized_events_again :
    (c later : Context) (source : Source) (es : List NormalizedEvent) (s : Store)
    {r : Store × Intake}
    → later.rt ≡ c.rt
    → ingest_normalized_events c source es s ≡ ok r
    → (p : Intake) × (ingest_normalized_events later source es r.0 ≡ ok (r.0, p))
      × (p.duplicates ≡ length es)
ingest_normalized_events_again c later source es s {r} same h = ingest_known later source es r.0 (
    subst
      (λ (rt : Runtime).
        All (λ (e : NormalizedEvent). knows (event_key rt e source.id) r.0 ≡ true) es)
      (sym same) (batch-knows c source es s h))
