-- ===== src/Application/Incidents/Secondary.antt =====
-- The stream that may resolve what the primary stream opened, `ingest_existing_resolutions`.
use alert_hub.Prelude.{
  ℕ, ◌+◌, ◌≡◌, ◌∙◌, refl, sym, ap, Bool, true, false, Option, none, some, List, [], ◌∷◌, map, Text,
  Result, ok, ◌>>=◌, >>=-eq-ok, ok_injective, if◌then◌else◌, arith,
}
use alert_hub.Domain.Normalized.{NormalizedEvent, event_key, incident_fingerprint, is_resolution}
use alert_hub.Runtime.{Runtime}
use alert_hub.Application.Rows.{Incident, IncidentEvent, Source}
use alert_hub.Application.Store.{Context, Store, find_event, find_incident, append_cluster_event}
use alert_hub.Application.Incidents.Ingest.{
  Intake, ensure_incident, write_event, ingest_new, ingest_found, ingest_one,
  ingest_normalized_events, no_intake, join_intake, accepts_resolution, resolve_new, resolve_found,
  resolve_one, ingest_existing_resolutions,
}
use alert_hub.Application.Incidents.Effects.{ingest_new_effect, put_incident-ids}
use alert_hub.Application.Incidents.Redelivery.{batch_cons}

-- The ids of the incidents, in the order of their rows.
abbrev pub incident_ids : Store → List Text
incident_ids s = map (λ (i : Incident). i.id) s.incidents

ensure_incident-ids :
    (rt : Runtime) (source_id fingerprint : Text) (e : NormalizedEvent) (s : Store)
    → accepts_resolution (find_incident source_id fingerprint s) ≡ true
    → (ensure_incident rt source_id fingerprint e s).0.incidents ≡ s.incidents
unfolding ensure_incident
ensure_incident-ids rt source_id fingerprint e s h = ground (arith, h)

ingest_new-ids :
    (c : Context) (source : Source) (e : NormalizedEvent) (key : Text) (s : Store)
    {r : Store × Incident}
    → accepts_resolution
        (find_incident source.id (incident_fingerprint c.rt source.id e.dedup_key) s)
      ≡ true
    → ingest_new c source e key s ≡ ok r
    → incident_ids r.0 ≡ incident_ids s
unfolding write_event append_cluster_event
ingest_new-ids c source e key s {r} known h =
    let w = write_event c source e key s in
    let (wrote, _) = ingest_new_effect c source e key s h in
    ap incident_ids wrote
    ∙ put_incident-ids r.1 w.store.incidents
    ∙ ap (map (λ (i : Incident). i.id)) (
        ensure_incident-ids c.rt source.id (incident_fingerprint c.rt source.id e.dedup_key) e s
          known)

ingest_found-ids :
    (c : Context) (source : Source) (e : NormalizedEvent) (key : Text) (s : Store)
    (o : Option IncidentEvent) {r : Store × Intake}
    → accepts_resolution
        (find_incident source.id (incident_fingerprint c.rt source.id e.dedup_key) s)
      ≡ true
    → ingest_found c source e key s o ≡ ok r
    → incident_ids r.0 ≡ incident_ids s
unfolding ingest_found
ingest_found-ids c source e key s (some row) {r} known h =
    ap (λ (x : Store × Intake). incident_ids x.0) (sym (ok_injective _ r h))
ingest_found-ids c source e key s none {r} known h =
    let (q, added, done) =
      >>=-eq-ok (ingest_new c source e key s)
        (λ q. ok (q.0, record { affected = q.1.id ∷ []; duplicates = 0 })) h in
    ap (λ (x : Store × Intake). incident_ids x.0)
      (sym (ok_injective (q.0, record { affected = q.1.id ∷ []; duplicates = 0 }) r done))
    ∙ ingest_new-ids c source e key s known added

pub single-ids :
    (c : Context) (source : Source) (e : NormalizedEvent) (s : Store) {r : Store × Intake}
    → accepts_resolution
        (find_incident source.id (incident_fingerprint c.rt source.id e.dedup_key) s)
      ≡ true
    → ingest_normalized_events c source (e ∷ []) s ≡ ok r
    → incident_ids r.0 ≡ incident_ids s
unfolding ingest_one ingest_normalized_events
single-ids c source e s {r} known h =
    let key = event_key c.rt e source.id in
    let (p, q, one, others, same) = batch_cons c source e [] s h in
    ap incident_ids (sym same)
    ∙ ap (λ (x : Store × Intake). incident_ids x.0) (sym (ok_injective (p.0, no_intake) q others))
    ∙ ingest_found-ids c source e key s (find_event key s) known one

resolve_new-ids :
    (c : Context) (source : Source) (e : NormalizedEvent) (s : Store) (b : Bool)
    {r : Store × (Intake × ℕ)}
    → accepts_resolution
        (find_incident source.id (incident_fingerprint c.rt source.id e.dedup_key) s)
      ≡ b
    → resolve_new c source e s b ≡ ok r
    → incident_ids r.0 ≡ incident_ids s
unfolding resolve_new
resolve_new-ids c source e s true {r} known h =
    let (q, single, done) =
      >>=-eq-ok (ingest_normalized_events c source (e ∷ []) s) (λ q. ok (q.0, (q.1, 0))) h in
    ap (λ (x : Store × (Intake × ℕ)). incident_ids x.0) (sym (ok_injective (q.0, (q.1, 0)) r done))
    ∙ single-ids c source e s known single
resolve_new-ids c source e s false {r} known h =
    ap (λ (x : Store × (Intake × ℕ)). incident_ids x.0) (sym (ok_injective (s, (no_intake, 1)) r h))

resolve_found-ids :
    (c : Context) (source : Source) (e : NormalizedEvent) (s : Store) (o : Option IncidentEvent)
    {r : Store × (Intake × ℕ)}
    → resolve_found c source e s o ≡ ok r
    → incident_ids r.0 ≡ incident_ids s
unfolding resolve_found
resolve_found-ids c source e s (some row) {r} h =
    ap (λ (x : Store × (Intake × ℕ)). incident_ids x.0) (sym (ok_injective _ r h))
resolve_found-ids c source e s none h = resolve_new-ids c source e s _ refl h

resolve_by-ids :
    (b : Bool) (s : Store) (m : Result (Store × (Intake × ℕ))) {r : Store × (Intake × ℕ)}
    → ((q : Store × (Intake × ℕ)) → m ≡ ok q → incident_ids q.0 ≡ incident_ids s)
    → (if b then m else ok (s, (no_intake, 1))) ≡ ok r
    → incident_ids r.0 ≡ incident_ids s
resolve_by-ids true s m {r} each h = each r h
resolve_by-ids false s m {r} each h =
    ap (λ (x : Store × (Intake × ℕ)). incident_ids x.0) (sym (ok_injective (s, (no_intake, 1)) r h))

resolve_one-ids :
    (c : Context) (source : Source) (e : NormalizedEvent) (s : Store) {r : Store × (Intake × ℕ)}
    → resolve_one c source e s ≡ ok r
    → incident_ids r.0 ≡ incident_ids s
unfolding resolve_one
resolve_one-ids c source e s h =
    resolve_by-ids (is_resolution e.status) s _
      (λ q g. resolve_found-ids c source e s (find_event (event_key c.rt e source.id) s) g) h

-- Whatever events the secondary stream brings, a batch of it that goes through opens no incident and removes none.
pub ingest_existing_resolutions-ids :
    (c : Context) (source : Source) (es : List NormalizedEvent) (s : Store)
    {r : Store × (Intake × ℕ)}
    → ingest_existing_resolutions c source es s ≡ ok r
    → incident_ids r.0 ≡ incident_ids s
unfolding ingest_existing_resolutions
ingest_existing_resolutions-ids c source [] s {r} h =
    ap (λ (x : Store × (Intake × ℕ)). incident_ids x.0) (sym (ok_injective _ r h))
ingest_existing_resolutions-ids c source (e ∷ es) s {r} h =
    let (p, one, rest) =
      >>=-eq-ok (resolve_one c source e s)
        (λ p. ingest_existing_resolutions c source es p.0 >>= λ q.
          ok (q.0, (join_intake p.1.0 q.1.0, p.1.1 + q.1.1)))
        h in
    let (q, others, done) =
      >>=-eq-ok (ingest_existing_resolutions c source es p.0)
        (λ q. ok (q.0, (join_intake p.1.0 q.1.0, p.1.1 + q.1.1))) rest in
    ap (λ (x : Store × (Intake × ℕ)). incident_ids x.0)
      (sym (ok_injective (q.0, (join_intake p.1.0 q.1.0, p.1.1 + q.1.1)) r done))
    ∙ ingest_existing_resolutions-ids c source es p.0 others
    ∙ resolve_one-ids c source e s one
