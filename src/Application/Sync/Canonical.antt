-- ===== src/Application/Sync/Canonical.antt =====
-- The incident that `_canonical_incident` gives for a source and a fingerprint.
use mathlib.Core.Path.{subst}
use alert_hub.Prelude.{
  ℕ, ◌≤◌, ◌≡◌, ◌⊎◌, inl, inr, refl, sym, ap, ◌∙◌, false, Option, none, some, List, [], ◌∷◌, Text,
  codes, text_eq, text_beq_iff, ◌==◌, if◌then◌else◌, find, keep, length, arith, Bool-cases, ok,
  ◌>>=◌, >>=-eq-ok, ok_injective, beq_self,
}
use alert_hub.Prelude.Table.{remove, row_of-key}
use alert_hub.Runtime.{Runtime}
use alert_hub.Application.Rows.{ClusterEvent, Incident, IncidentEvent}
use alert_hub.Application.Store.{Store, find_incident, get_incident, has_fingerprint, has_id}
use alert_hub.Application.Incidents.Ingest.{incident_projection_id}
use alert_hub.Application.Sync.History.{payload_time}
use alert_hub.Application.Sync.Incidents.{
  canonical_incident, canonical_or_new, delete_event, has_twin, insert_incident, merge_incident,
  merge_other, merge_rows, move_event, replicated_incident,
}

-- How many incidents there are of a source with a fingerprint.
abbrev pub incidents_of : Text → Text → List Incident → ℕ
incidents_of source_id fingerprint is = length (keep (has_fingerprint source_id fingerprint) is)

remove-other :
    (i j : Text) (is : List Incident)
    → (i == j) ≡ false
    → find (has_id i) (remove (λ (k : Incident). k.id) j is) ≡ find (has_id i) is
unfolding remove
remove-other i j [] h = refl
remove-other i j (k ∷ is) h =
    ground
      (arith, h, remove-other i j is h, text_beq_iff i k.id, text_beq_iff j k.id, text_beq_iff i j)

remove-le :
    (a b j : Text) (is : List Incident)
    → incidents_of a b (remove (λ (k : Incident). k.id) j is) ≤ incidents_of a b is
unfolding remove
remove-le a b j [] = omega arith
remove-le a b j (k ∷ is) = ground (arith, remove-le a b j is)

find-none :
    (a b : Text) (is : List Incident)
    → find (has_fingerprint a b) is ≡ none
    → incidents_of a b is ≡ 0
find-none a b [] h = refl
find-none a b (k ∷ is) h = ground (arith, h, find-none a b is)

merged_row-incidents :
    (i : Text) (row : IncidentEvent) (s : Store)
    → (if has_twin row s then delete_event row.id s else move_event row.id i s).incidents
      ≡ s.incidents
merged_row-incidents i row s = ground arith

merge_rows-incidents :
    (i : Text) (rows : List IncidentEvent) (s : Store)
    → (merge_rows i rows s).incidents ≡ s.incidents
unfolding merge_rows
merge_rows-incidents i [] s = refl
merge_rows-incidents i (row ∷ rows) s =
    merge_rows-incidents i rows
      (if has_twin row s then delete_event row.id s else move_event row.id i s)
    ∙ merged_row-incidents i row s

merge_incident-incidents :
    (i j : Text) (s : Store)
    → (merge_incident i j s).incidents ≡ remove (λ (k : Incident). k.id) j s.incidents
unfolding merge_incident
merge_incident-incidents i j s =
    ap (remove (λ (k : Incident). k.id) j) (
      merge_rows-incidents i (keep (λ (e : IncidentEvent). e.incident_id == j) s.incident_events) s)

-- The merge of another incident of the pair keeps the canonical one.
merge_other-found :
    (i : Incident) (o : Option Incident) (s : Store)
    → get_incident i.id s ≡ some i
    → get_incident i.id (merge_other i o s) ≡ some i
merge_other-found i none s h = h
merge_other-found i (some j) s h = elim (Bool-cases (j.id == i.id)) [
  | inl same ↦ rw same h
  | inr other ↦
      rw
        (
          other,
          merge_incident-incidents i.id j.id s,
          remove-other i.id j.id s.incidents
              (ground (arith, other, text_beq_iff j.id i.id, text_beq_iff i.id j.id)),
        )
        h
]

merge_other-le :
    (i : Incident) (o : Option Incident) (s : Store) (a b : Text)
    → incidents_of a b (merge_other i o s).incidents ≤ incidents_of a b s.incidents
merge_other-le i none s a b = omega arith
merge_other-le i (some j) s a b = elim (Bool-cases (j.id == i.id)) [
  | inl same ↦ rw same (omega arith)
  | inr other ↦ rw (other, merge_incident-incidents i.id j.id s) (remove-le a b j.id s.incidents)
]

insert_incident-once :
    (i : Incident) (s : Store) (a b : Text) {t : Store}
    → insert_incident i s ≡ ok t
    → incidents_of a b s.incidents ≤ 1
    → incidents_of a b t.incidents ≤ 1
insert_incident-once i s a b h once = ground (
  arith,
  h,
  once,
  find-none a b s.incidents,
  text_beq_iff a i.source_id,
  text_beq_iff b i.fingerprint,
)

insert_incident-found :
    (i : Incident) (s : Store) {t : Store}
    → insert_incident i s ≡ ok t
    → (get_incident i.id t ≡ some i) × (find_incident i.source_id i.fingerprint s ≡ none)
insert_incident-found i s h = (ground (arith, h, beq_self i.id), ground (arith, h))

-- What a call that goes through leaves: the incident with the id, that was there or that is new and
-- the first of its pair, and at most one incident of the pair looked at.
record Settles (id source_id fingerprint a b : Text) (s s' : Store) (i : Incident) : Type 0 where
  present : get_incident id s' ≡ some i
  single : incidents_of a b s'.incidents ≤ 1
  origin : (get_incident id s ≡ some i) ⊎ (find_incident source_id fingerprint s ≡ none)

canonical_or_new-Settles :
    (rt : Runtime) (id source_id fingerprint : Text) (t : ℕ) (e : ClusterEvent)
    (o existing : Option Incident) (s : Store) (a b : Text) {r : Store × Incident}
    → canonical_or_new rt id source_id fingerprint t e o existing s ≡ ok r
    → get_incident id s ≡ o
    → find_incident source_id fingerprint s ≡ existing
    → incidents_of a b s.incidents ≤ 1
    → Settles id source_id fingerprint a b s r.0 r.1
unfolding canonical_or_new replicated_incident
canonical_or_new-Settles rt id source_id fingerprint t e (some i) existing s a b {r} h there p
      once =
    let named = row_of-key (λ (k : Incident). k.id) id s.incidents i there in
    subst (λ (x : Store × Incident). Settles id source_id fingerprint a b s x.0 x.1)
      (ok_injective (merge_other i existing s, i) r h)
      (record {
        present =
            subst (λ j. get_incident j (merge_other i existing s) ≡ some i) named
              (merge_other-found i existing s
                (subst (λ j. get_incident j s ≡ some i) (sym named) there));
        single = omega (arith, once, merge_other-le i existing s a b);
        origin = inl there;
      })
canonical_or_new-Settles rt id source_id fingerprint t e none (some j) s a b h missing other once =
    absurd (ground (arith, h, other))
canonical_or_new-Settles rt id source_id fingerprint t e none none s a b {r} h missing first once =
    let i = replicated_incident rt id source_id fingerprint t e in
    let (s', inserted, done) = >>=-eq-ok (insert_incident i s) (λ s'. ok (s', i)) h in
    subst (λ (x : Store × Incident). Settles id source_id fingerprint a b s x.0 x.1)
      (ok_injective (s', i) r done)
      (record {
        present = (insert_incident-found i s inserted).0;
        single = insert_incident-once i s a b inserted once;
        origin = inr first;
      })

-- A call that goes through, for a source that exists, gives the incident whose id the source and the
-- fingerprint make, and the database has it; it was there before, or there was no incident of the source with the fingerprint.
-- So an incident of the pair under another id alone is never moved. Where a source has at most one
-- incident with a fingerprint, it still has at most one.
pub canonical_incident-single :
    (rt : Runtime) (e : ClusterEvent) (source_id fingerprint : Text) (s : Store) (a b : Text)
    {r : Store × Incident}
    → canonical_incident rt e source_id fingerprint s ≡ ok (some r)
    → incidents_of a b s.incidents ≤ 1
    → (get_incident (incident_projection_id rt source_id fingerprint) r.0 ≡ some r.1)
      × (incidents_of a b r.0.incidents ≤ 1)
      × ((get_incident (incident_projection_id rt source_id fingerprint) s ≡ some r.1)
          ⊎ (find_incident source_id fingerprint s ≡ none))
unfolding canonical_incident
canonical_incident-single rt e source_id fingerprint s a b {r} h once =
    let id = incident_projection_id rt source_id fingerprint in
    let (t, told, rest) =
      >>=-eq-ok (payload_time rt (codes "starts_at") e)
        (λ t.
          canonical_or_new rt id source_id fingerprint t e (get_incident id s)
            (find_incident source_id fingerprint s) s
          >>= λ q. ok (some q))
        {y = some r} (ground (arith, h)) in
    let (q, settled, done) =
      >>=-eq-ok
        (canonical_or_new rt id source_id fingerprint t e (get_incident id s)
          (find_incident source_id fingerprint s) s)
        (λ q. ok (some q)) rest in
    let same : q ≡ r = cc in
    let w =
      canonical_or_new-Settles rt id source_id fingerprint t e (get_incident id s)
        (find_incident source_id fingerprint s) s a b (settled ∙ ap ok same) refl refl once in
    (w.present, w.single, w.origin)
