-- ===== src/Application/ClusterHealth/Recovery.antt =====
-- The end of a node's alert.
use alert_hub.Prelude.{
  ℕ, ◌≡◌, ◌∙◌, refl, sym, ap, Bool, true, false, Option, none, some, List, [], ◌∷◌, Text, text_eq,
  ◌==◌, find, or_else, ok, >>=-eq-ok, ok_injective, arith,
}
use mathlib.Core.Path.{subst}
use alert_hub.Domain.Normalized.{incident_fingerprint}
use alert_hub.Application.Rows.{Node, Incident, Source}
use alert_hub.Application.Store.{Context, Store, find_incident}
use alert_hub.Application.Incidents.Ingest.{accepts_resolution, ingest_normalized_events}
use alert_hub.Application.Incidents.Secondary.{incident_ids, single-ids}
use alert_hub.Application.Heartbeats.Observe.{get_source}
use alert_hub.Application.ClusterHealth.Defs.{
  health_source_id, node_api_alert_dedup_key, node_api_incident, recovered_event, open_only,
  resolve_found_alert, resolve_node_api_alert,
}

find_source-id :
    (i : Text) (xs : List Source) (x : Source)
    → find (λ (y : Source). i == y.id) xs ≡ some x
    → x.id ≡ i
find_source-id i [] x h = cc
find_source-id i (y ∷ ys) x h = ground (arith, h, text_eq.beq_iff i y.id, find_source-id i ys x)

open_only-accepts :
    (o : Option Incident) (i : Incident) → open_only o ≡ some i → accepts_resolution o ≡ true
open_only-accepts none i h = cc
open_only-accepts (some j) i h = ground (arith, h)

resolve_found_alert-ids :
    (c : Context) (node : Node) (reason : Text) (at : ℕ) (o : Option Incident) (x? : Option Source)
    (s : Store) {r : Store × Bool}
    → ((i : Incident) (x : Source)
        → o ≡ some i
        → x? ≡ some x
        → accepts_resolution (
            find_incident x.id
              (incident_fingerprint c.rt x.id (node_api_alert_dedup_key node.id))
              s)
          ≡ true)
    → resolve_found_alert c node reason at o x? s ≡ ok r
    → incident_ids r.0 ≡ incident_ids s
unfolding resolve_found_alert recovered_event
resolve_found_alert-ids c node reason at (some i) (some x) s {r} known h =
    let (q, took, done) =
      >>=-eq-ok (ingest_normalized_events c x (recovered_event c node i reason at ∷ []) s)
        (λ q. ok (q.0, true)) h in
    ap (λ (y : Store × Bool). incident_ids y.0) (sym (ok_injective (q.0, true) r done))
    ∙ single-ids c x (recovered_event c node i reason at) s (known i x refl refl) took
resolve_found_alert-ids c node reason at none x? s {r} known h =
    ap (λ (y : Store × Bool). incident_ids y.0) (sym (ok_injective (s, false) r h))
resolve_found_alert-ids c node reason at (some i) none s {r} known h =
    ap (λ (y : Store × Bool). incident_ids y.0) (sym (ok_injective (s, false) r h))

-- The recovery of a node's API opens no incident and removes none, whatever alerts there are.
pub resolve_node_api_alert-ids :
    (c : Context) (node : Node) (reason : Text) (at : Option ℕ) (s : Store) {r : Store × Bool}
    → resolve_node_api_alert c node reason at s ≡ ok r
    → incident_ids r.0 ≡ incident_ids s
unfolding resolve_node_api_alert node_api_incident
resolve_node_api_alert-ids c node reason at s h =
    resolve_found_alert-ids c node reason (or_else at c.now)
      (open_only (node_api_incident c.rt node.id s)) (get_source (health_source_id c.rt) s) s
      (λ i x found source.
        subst
          (λ k.
            accepts_resolution
              (find_incident k (incident_fingerprint c.rt k (node_api_alert_dedup_key node.id)) s)
            ≡ true)
          (sym (find_source-id (health_source_id c.rt) s.sources x source))
          (open_only-accepts (node_api_incident c.rt node.id s) i found))
      h
