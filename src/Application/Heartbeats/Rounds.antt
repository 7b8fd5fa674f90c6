-- ===== src/Application/Heartbeats/Rounds.antt =====
-- What one round of the scan of the heartbeats does to the states.
use alert_hub.Prelude.{
  ℕ, ◌≡◌, ◌∙◌, ◌⊎◌, refl, sym, ap, Bool, true, false, Option, none, some, List, [], ◌∷◌, Text,
  text_eq, ◌==◌, beq_self, find, ok, ◌>>=◌, >>=-eq-ok, ok_injective, Option-cases, Bool-cases, inl,
  inr, if◌then◌else◌, arith,
}
use mathlib.Core.Path.{subst}
use alert_hub.Domain.Normalized.{EventStatus, NormalizedEvent, event_key}
use alert_hub.Application.Rows.{HeartbeatState, Source}
use alert_hub.Application.Store.{Context, Store}
use alert_hub.Application.Incidents.Ingest.{Intake, ingest_one, ingest_normalized_events, no_intake}
use alert_hub.Application.Incidents.Redelivery.{ingest_one-cases, batch_cons}
use alert_hub.Application.Heartbeats.Observe.{
  is_state_of, get_state, state_or_new, ensure_state, put_state, save_state,
}
use alert_hub.Application.Heartbeats.Evaluate.{
  Floats, window_end, source_event, fire_missed, is_overdue, evaluate_window, evaluate_one,
  count_new,
}

-- What the scan reads of a store beside the incidents.
abbrev pub Watch : Type 0
Watch = List HeartbeatState × List Source

abbrev pub watch : Store → Watch
watch s = (s.heartbeats, s.sources)

pub ingest_one-watch :
    (c : Context) (source : Source) (e : NormalizedEvent) (s : Store) {r : Store × Intake}
    → ingest_one c source e s ≡ ok r
    → watch r.0 ≡ watch s
ingest_one-watch c source e s h = elim (ingest_one-cases c source e s h) [
  | inl (_, same) ↦ ap watch same
  | inr a ↦ rw (a.kept_heartbeats, a.kept_sources) refl
]

pub ingest_normalized_events-watch :
    (c : Context) (source : Source) (es : List NormalizedEvent) (s : Store) {r : Store × Intake}
    → ingest_normalized_events c source es s ≡ ok r
    → watch r.0 ≡ watch s
unfolding ingest_normalized_events
ingest_normalized_events-watch c source [] s {r} h =
    ap (λ (x : Store × Intake). watch x.0) (sym (ok_injective (s, no_intake) r h))
ingest_normalized_events-watch c source (e ∷ es) s h =
    let (p, q, one, others, same) = batch_cons c source e es s h in
    ap watch (sym same)
    ∙ ingest_normalized_events-watch c source es p.0 others
    ∙ ingest_one-watch c source e s one

pub find_state-id :
    (i : Text) (hs : List HeartbeatState) (h : HeartbeatState)
    → find (is_state_of i) hs ≡ some h
    → h.source_id ≡ i
find_state-id i [] h f = cc
find_state-id i (g ∷ gs) h f =
    ground (arith, f, text_eq.beq_iff i g.source_id, find_state-id i gs h)

pub find_state-put :
    (i : Text) (g : HeartbeatState) (hs : List HeartbeatState) (h : HeartbeatState)
    → find (is_state_of g.source_id) hs ≡ some h
    → find (is_state_of i) (put_state g hs)
      ≡ (if i == g.source_id then some g else find (is_state_of i) hs)
unfolding put_state
find_state-put i g [] h f = cc
find_state-put i g (k ∷ ks) h f = ground (
  arith,
  f,
  find_state-put i g ks h,
  text_eq.beq_iff i g.source_id,
  text_eq.beq_iff i k.source_id,
  text_eq.beq_iff g.source_id k.source_id,
)

pub ensure_state-id : (x : Source) (s : Store) → (ensure_state x s).1.source_id ≡ x.id
unfolding ensure_state
ensure_state-id x s = elim (Option-cases (get_state x.id s)) [
  | inl new ↦ ap (λ o. (state_or_new x s o).1.source_id) new
  | inr (h, known) ↦
      ap (λ o. (state_or_new x s o).1.source_id) known ∙ find_state-id x.id s.heartbeats h known
]

pub ensure_state_self :
    (x : Source) (s : Store) → get_state x.id (ensure_state x s).0 ≡ some (ensure_state x s).1
unfolding ensure_state
ensure_state_self x s = ground (arith, beq_self x.id)

pub ensure_state-known :
    (x : Source) (s : Store) (h : HeartbeatState)
    → get_state x.id s ≡ some h
    → ensure_state x s ≡ (s, h)
unfolding ensure_state
ensure_state-known x s h f = ap (state_or_new x s) f

pub ensure_state-still :
    (x : Source) (s : Store) (i : Text) (h : HeartbeatState)
    → get_state i s ≡ some h
    → get_state i (ensure_state x s).0 ≡ some h
unfolding ensure_state
ensure_state-still x s i h f = ground (arith, f, text_eq.beq_iff i x.id)

pub ensure_state-sources : (x : Source) (s : Store) → (ensure_state x s).0.sources ≡ s.sources
unfolding ensure_state
ensure_state-sources x s = ground arith

abbrev pub is_due : HeartbeatState → ℕ → Option ℕ → Bool
is_due h current none = false
is_due h current (some deadline) = is_overdue h deadline current

-- What one round does: the window of the source is known, and either nothing is due and nothing
-- happens, or the state is marked as missed.
pub record Round (fl : Floats) (current : ℕ) (x : Source) (s : Store) (r : Store) : Type 0 where
  pub deadline : Option ℕ
  pub window : window_end fl x.config (ensure_state x s).1.last_received_at ≡ ok deadline
  pub sources : r.sources ≡ s.sources
  pub effect :
      ((is_due (ensure_state x s).1 current deadline ≡ false) × (r ≡ (ensure_state x s).0))
      ⊎ ((k : Option Text) × (r.heartbeats
            ≡ put_state
                (record ((ensure_state x s).1) { missed = true; last_event_key = k })
                (ensure_state x s).0.heartbeats))

pub fire_missed-effect :
    (c : Context) (x : Source) (h : HeartbeatState) (deadline current : ℕ) (s : Store)
    {r : Store × ℕ}
    → fire_missed c x h deadline current s ≡ ok r
    → (k : Option Text) × (r.0.heartbeats
        ≡ put_state (record h { missed = true; last_event_key = k }) s.heartbeats)
      × (r.0.sources ≡ s.sources)
unfolding fire_missed
fire_missed-effect c x h deadline current s {r} g =
    let (e, made, rest) =
      >>=-eq-ok (source_event c x EventStatus.firing deadline current)
        (λ e. ingest_normalized_events c x (e ∷ []) s >>= λ q. ok (
          save_state (record h { missed = true; last_event_key = some (event_key c.rt e x.id) })
              q.0,
          count_new q.1,
        ))
        g in
    let k = some (event_key c.rt e x.id) in
    let (q, took, done) =
      >>=-eq-ok (ingest_normalized_events c x (e ∷ []) s)
        (λ q. ok (save_state (record h { missed = true; last_event_key = k }) q.0, count_new q.1))
        rest in
    let same = ingest_normalized_events-watch c x (e ∷ []) s took in
    subst
      (λ (y : Store × ℕ).
        (k : Option Text) × (y.0.heartbeats
          ≡ put_state (record h { missed = true; last_event_key = k }) s.heartbeats)
        × (y.0.sources ≡ s.sources))
      (ok_injective (save_state (record h { missed = true; last_event_key = k }) q.0, count_new q.1)
        r done)
      (
        k,
        ap (λ (w : Watch). put_state (record h { missed = true; last_event_key = k }) w.0) same,
        ap (λ (w : Watch). w.1) same,
      )

pub evaluate_window-effect :
    (c : Context) (x : Source) (h : HeartbeatState) (current : ℕ) (s : Store) (o : Option ℕ)
    {r : Store × ℕ}
    → evaluate_window c x h current s o ≡ ok r
    → ((is_due h current o ≡ false) × (r.0 ≡ s))
      ⊎ ((k : Option Text) × (r.0.heartbeats
            ≡ put_state (record h { missed = true; last_event_key = k }) s.heartbeats)
          × (r.0.sources ≡ s.sources))
unfolding evaluate_window
evaluate_window-effect c x h current s none {r} g =
    inl (refl, ap (λ (y : Store × ℕ). y.0) (sym (ok_injective (s, 0) r g)))
evaluate_window-effect c x h current s (some deadline) {r} g =
    elim (Bool-cases (is_overdue h deadline current)) [
      | inl due ↦ inr (
          fire_missed-effect c x h deadline current s
            (sym (ap (λ b. if b then fire_missed c x h deadline current s else ok (s, 0)) due) ∙ g))
      | inr early ↦ inl (
        early,
        ap (λ (y : Store × ℕ). y.0)
            (sym (
              ok_injective (s, 0) r
                (sym (ap (λ b. if b then fire_missed c x h deadline current s else ok (s, 0)) early)
                  ∙ g))),
      )
    ]

pub evaluate_one-Round :
    (fl : Floats) (c : Context) (current : ℕ) (x : Source) (s : Store) {r : Store × ℕ}
    → evaluate_one fl c current x s ≡ ok r
    → Round fl current x s r.0
unfolding evaluate_one
evaluate_one-Round fl c current x s {r} g =
    let en = ensure_state x s in
    let (o, window, rest) =
      >>=-eq-ok (window_end fl x.config en.1.last_received_at)
        (evaluate_window c x en.1 current en.0) g in
    elim (evaluate_window-effect c x en.1 current en.0 o rest) [
      | inl (early, same) ↦ record {
        deadline = o;
        window = window;
        sources = ap (λ (y : Store). y.sources) same ∙ ensure_state-sources x s;
        effect = inl (early, same);
      }
      | inr (k, wrote, kept) ↦ record {
        deadline = o;
        window = window;
        sources = kept ∙ ensure_state-sources x s;
        effect = inr (k, wrote);
      }
    ]
