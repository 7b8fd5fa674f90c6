-- ===== src/Domain/Adapters/Alerts.antt =====
-- What an Alertmanager payload becomes.
use alert_hub.Prelude.{
  ℕ, codes, ◌≡◌, refl, true, false, List, [], ◌∷◌, Text, nonempty, none, some, ok, ◌>>=◌, ◌⊎◌,
  >>=-eq-ok, ok_injective, arith,
}
use mathlib.Core.Path.{subst}
use alert_hub.Prelude.Texts.{strip}
use alert_hub.Runtime.{Value, Values, Fields, Runtime, get, str_or_empty}
use alert_hub.Runtime.Value.{array, object}
use alert_hub.Runtime.Values.{nil, cons}
use alert_hub.Domain.Normalized.{NormalizedEvent, normalized_event}
use alert_hub.Domain.Adapters.Defs.{
  mapping, nonempty_fields, stable_label_key, normalize_alert, normalize_alerts, normalize_array,
  normalize_alertmanager,
}

-- The fingerprint that an alert comes with, without blanks; none is the empty text.
abbrev pub fingerprint_of : Runtime → Fields → Text
fingerprint_of rt raw = strip (str_or_empty rt (get (codes "fingerprint") raw))

-- The key of an event with the given fingerprint: the fingerprint, which is then also the id that the
-- sender has for it, or else the labels, of which there are some.
abbrev pub IsKeyedBy : Runtime → Text → NormalizedEvent → Type 0
IsKeyedBy rt fingerprint e =
    ((nonempty fingerprint ≡ true)
      × (e.dedup_key ≡ fingerprint)
      × (e.external_event_id ≡ some fingerprint))
    ⊎ ((nonempty fingerprint ≡ false)
        × (nonempty_fields e.labels ≡ true)
        × (e.dedup_key ≡ stable_label_key rt e.labels)
        × (e.external_event_id ≡ none))

-- The event of an alert.
pub record IsEventOf (rt : Runtime) (raw : Fields) (e : NormalizedEvent) : Type 0 where
  pub source : e.raw_payload ≡ raw
  pub labelled : mapping (get (codes "labels") raw) ≡ ok e.labels
  pub keyed : IsKeyedBy rt (fingerprint_of rt raw) e
  pub not_blank : nonempty (strip e.dedup_key) ≡ true

-- The events of the alerts, one of each, in their order.
pub data AreEventsOf (rt : Runtime) : Values → List NormalizedEvent → Type 0 where
  no_more : AreEventsOf rt nil []
  one_more :
      {raw : Fields} {vs : Values} {e : NormalizedEvent} {es : List NormalizedEvent}
      → IsEventOf rt raw e
      → AreEventsOf rt vs es
      → AreEventsOf rt (cons (object raw) vs) (e ∷ es)

normalize_alert-IsEventOf :
    (rt : Runtime) (now : ℕ) (payload raw : Fields) {r : NormalizedEvent}
    → normalize_alert rt now payload raw ≡ ok r
    → IsEventOf rt raw r
unfolding normalize_alert normalized_event
normalize_alert-IsEventOf rt now payload raw h = ground (arith, h)

normalize_alerts-AreEventsOf :
    (rt : Runtime) (now : ℕ) (payload : Fields) (vs : Values) {r : List NormalizedEvent}
    → normalize_alerts rt now payload vs ≡ ok r
    → AreEventsOf rt vs r
unfolding normalize_alerts
normalize_alerts-AreEventsOf rt now payload nil {r} h =
    subst (AreEventsOf rt nil) (ok_injective [] r h) no_more
normalize_alerts-AreEventsOf rt now payload (cons (object raw) vs) {r} h =
    let (e, first, rest) =
      >>=-eq-ok (normalize_alert rt now payload raw)
        (λ e. normalize_alerts rt now payload vs >>= λ es. ok (e ∷ es)) h in
    let (es, others, done) =
      >>=-eq-ok (normalize_alerts rt now payload vs) (λ es. ok (e ∷ es)) rest in
    subst (AreEventsOf rt (cons (object raw) vs)) (ok_injective (e ∷ es) r done) (
      one_more (normalize_alert-IsEventOf rt now payload raw first)
        (normalize_alerts-AreEventsOf rt now payload vs others))
normalize_alerts-AreEventsOf rt now payload (cons _ vs) h = absurd (cc)

normalize_array-keyed :
    (rt : Runtime) (now : ℕ) (payload : Fields) (v : Value) {w : Value} {r : List NormalizedEvent}
    → w ≡ v
    → normalize_array rt now payload v ≡ ok r
    → (vs : Values) × (w ≡ array vs) × AreEventsOf rt vs r
normalize_array-keyed rt now payload (array vs) p h =
    (vs, p, normalize_alerts-AreEventsOf rt now payload vs h)
normalize_array-keyed rt now payload _ p h = absurd (cc)

-- A payload that is accepted holds an array of alerts, and the result has one event for each of them,
-- in order, whose key is not blank: the fingerprint of the alert if it has one that is not blank, and
-- else the key of its labels, of which there are then some.
pub normalize_alertmanager-keyed :
    (rt : Runtime) (now : ℕ) (payload : Fields) {r : List NormalizedEvent}
    → normalize_alertmanager rt now payload ≡ ok r
    → (vs : Values) × (get (codes "alerts") payload ≡ array vs) × AreEventsOf rt vs r
unfolding normalize_alertmanager
normalize_alertmanager-keyed rt now payload {r} h = normalize_array-keyed rt now payload _ refl h
