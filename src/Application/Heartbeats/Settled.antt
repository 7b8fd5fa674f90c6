-- ===== src/Application/Heartbeats/Settled.antt =====
-- A scan of the heartbeats that follows another one.
use alert_hub.Prelude.{
  ℕ, ◌+◌, ◌≡◌, ◌∙◌, refl, sym, ap, true, false, Option, none, some, List, [], ◌∷◌, Text, text_eq,
  ◌==◌, beq_self, find, keep, All, ok, ◌>>=◌, >>=-eq-ok, ok_injective, Bool-cases, inl, inr,
  if◌then◌else◌,
}
use mathlib.Core.Path.{subst}
use alert_hub.Application.Rows.{HeartbeatState, Source}
use alert_hub.Application.Store.{Context, Store}
use alert_hub.Application.Heartbeats.Observe.{is_state_of, get_state, ensure_state, put_state}
use alert_hub.Application.Heartbeats.Evaluate.{
  Floats, window_end, fire_missed, evaluate_window, evaluate_one, evaluate_sources, is_watched,
  evaluate_heartbeats,
}
use alert_hub.Application.Heartbeats.Rounds.{
  find_state-put, ensure_state-id, ensure_state_self, ensure_state-known, ensure_state-still,
  is_due, Round, evaluate_one-Round,
}

-- The source has a state, and nothing is due for it.
record Quiet (fl : Floats) (current : ℕ) (x : Source) (s : Store) : Type 0 where
  state : HeartbeatState
  known : get_state x.id s ≡ some state
  deadline : Option ℕ
  window : window_end fl x.config state.last_received_at ≡ ok deadline
  calm : is_due state current deadline ≡ false

missed-calm :
    (h : HeartbeatState) (k : Option Text) (current : ℕ) (o : Option ℕ)
    → is_due (record h { missed = true; last_event_key = k }) current o ≡ false
missed-calm h k current none = refl
missed-calm h k current (some deadline) = refl

-- The states that can be found after the state of `y` was marked.
marked-find :
    (y : Source) (s r : Store) (i : Text) (k : Option Text)
    → r.heartbeats
      ≡ put_state
          (record ((ensure_state y s).1) { missed = true; last_event_key = k })
          (ensure_state y s).0.heartbeats
    → get_state i r ≡ (
        if i == (ensure_state y s).1.source_id
        then some (record ((ensure_state y s).1) { missed = true; last_event_key = k })
        else get_state i (ensure_state y s).0)
marked-find y s r i k wrote =
    let en = ensure_state y s in
    let g = record (en.1) { missed = true; last_event_key = k } in
    ap (find (is_state_of i)) wrote
    ∙ find_state-put i g en.0.heartbeats en.1
        (ap (λ j. get_state j en.0) (ensure_state-id y s) ∙ ensure_state_self y s)

Round-Quiet :
    {fl : Floats} {current : ℕ} (x : Source) (s r : Store)
    → Round fl current x s r
    → Quiet fl current x r
Round-Quiet {fl} {current} x s r t = elim (t.effect) [
  | inl (early, same) ↦ record {
    state = (ensure_state x s).1;
    known = ap (get_state x.id) same ∙ ensure_state_self x s;
    deadline = t.deadline;
    window = t.window;
    calm = early;
  }
  | inr (k, wrote) ↦
      let g = record ((ensure_state x s).1) { missed = true; last_event_key = k } in
      record {
        state = g;
        known =
            marked-find x s r x.id k wrote
            ∙ ap (λ j. if x.id == j then some g else get_state x.id (ensure_state x s).0)
                (ensure_state-id x s)
            ∙ ap (λ b. if b then some g else get_state x.id (ensure_state x s).0) (beq_self x.id);
        deadline = t.deadline;
        window = t.window;
        calm = missed-calm (ensure_state x s).1 k current t.deadline;
      }
]

some_same : (o : Option HeartbeatState) (g h : HeartbeatState) → o ≡ some g → o ≡ some h → g ≡ h
some_same o g h p q = cc

Quiet-still :
    {fl : Floats} {current : ℕ} (x y : Source) (s r : Store)
    → Quiet fl current x s
    → Round fl current y s r
    → Quiet fl current x r
Quiet-still {fl} {current} x y s r q t =
    let en = ensure_state y s in
    let f = ensure_state-still y s x.id q.state q.known in
    elim (t.effect) [
      | inl (early, same) ↦ record {
        state = q.state;
        known = ap (get_state x.id) same ∙ f;
        deadline = q.deadline;
        window = q.window;
        calm = q.calm;
      }
      | inr (k, wrote) ↦
          let g = record (en.1) { missed = true; last_event_key = k } in
          let found = marked-find y s r x.id k wrote in
          elim (Bool-cases (x.id == en.1.source_id)) [
            | inl own ↦
                let named = (text_eq.beq_iff x.id en.1.source_id).0 own ∙ ensure_state-id y s in
                let same =
                  some_same (get_state x.id en.0) q.state en.1 f
                    (ap (λ j. get_state j en.0) named ∙ ensure_state_self y s) in
                record {
                  state = g;
                  known = found ∙ ap (λ b. if b then some g else get_state x.id en.0) own;
                  deadline = q.deadline;
                  window =
                      ap (λ (h : HeartbeatState). window_end fl x.config h.last_received_at)
                        (sym same)
                      ∙ q.window;
                  calm = missed-calm en.1 k current q.deadline;
                }
            | inr other ↦ record {
              state = q.state;
              known = found ∙ ap (λ b. if b then some g else get_state x.id en.0) other ∙ f;
              deadline = q.deadline;
              window = q.window;
              calm = q.calm;
            }
          ]
    ]

calm-window :
    (c : Context) (x : Source) (h : HeartbeatState) (current : ℕ) (s : Store) (o : Option ℕ)
    → is_due h current o ≡ false
    → evaluate_window c x h current s o ≡ ok (s, 0)
unfolding evaluate_window
calm-window c x h current s none early = refl
calm-window c x h current s (some deadline) early =
    ap (λ b. if b then fire_missed c x h deadline current s else ok (s, 0)) early

Quiet-evaluate_one :
    {fl : Floats} (c : Context) {current : ℕ} (x : Source) (s : Store)
    → Quiet fl current x s
    → evaluate_one fl c current x s ≡ ok (s, 0)
unfolding evaluate_one
Quiet-evaluate_one {fl} c {current} x s q =
    ap
      (λ (en : Store × HeartbeatState).
        window_end fl x.config en.1.last_received_at >>= evaluate_window c x en.1 current en.0)
      (ensure_state-known x s q.state q.known)
    ∙ ap (λ m. m >>= evaluate_window c x q.state current s) q.window
    ∙ calm-window c x q.state current s q.deadline q.calm

-- A scan that went through is a first round and the rest.
scan_cons :
    (fl : Floats) (c : Context) (current : ℕ) (x : Source) (xs : List Source) (s : Store)
    {r : Store × ℕ}
    → evaluate_sources fl c current (x ∷ xs) s ≡ ok r
    → (p q : Store × ℕ) × (evaluate_one fl c current x s ≡ ok p)
      × (evaluate_sources fl c current xs p.0 ≡ ok q)
      × (q.0 ≡ r.0)
unfolding evaluate_sources
scan_cons fl c current x xs s {r} g =
    let (p, one, rest) =
      >>=-eq-ok (evaluate_one fl c current x s)
        (λ p. evaluate_sources fl c current xs p.0 >>= λ q. ok (q.0, p.1 + q.1)) g in
    let (q, others, done) =
      >>=-eq-ok (evaluate_sources fl c current xs p.0) (λ q. ok (q.0, p.1 + q.1)) rest in
    (p, q, one, others, ap (λ (y : Store × ℕ). y.0) (ok_injective (q.0, p.1 + q.1) r done))

scan-still :
    (fl : Floats) (c : Context) (current : ℕ) (xs : List Source) (x : Source) (s : Store)
    {r : Store × ℕ}
    → evaluate_sources fl c current xs s ≡ ok r
    → Quiet fl current x s
    → Quiet fl current x r.0
unfolding evaluate_sources
scan-still fl c current [] x s {r} g q =
    subst (λ (y : Store × ℕ). Quiet fl current x y.0) (ok_injective (s, 0) r g) q
scan-still fl c current (y ∷ ys) x s {r} g q =
    let (p, t, one, others, same) = scan_cons fl c current y ys s g in
    subst (Quiet fl current x) same (
      scan-still fl c current ys x p.0 others
        (Quiet-still x y s p.0 q (evaluate_one-Round fl c current y s one)))

scan-Quiet :
    (fl : Floats) (c : Context) (current : ℕ) (xs : List Source) (s : Store) {r : Store × ℕ}
    → evaluate_sources fl c current xs s ≡ ok r
    → All (λ x. Quiet fl current x r.0) xs × (r.0.sources ≡ s.sources)
unfolding evaluate_sources
scan-Quiet fl c current [] s {r} g =
    (tt, ap (λ (y : Store × ℕ). y.0.sources) (sym (ok_injective (s, 0) r g)))
scan-Quiet fl c current (x ∷ xs) s {r} g =
    let (p, q, one, others, same) = scan_cons fl c current x xs s g in
    let round = evaluate_one-Round fl c current x s one in
    let (rest, kept) = scan-Quiet fl c current xs p.0 others in
    subst (λ (y : Store). All (λ x. Quiet fl current x y) (x ∷ xs) × (y.sources ≡ s.sources)) same
      (
        (scan-still fl c current xs x p.0 others (Round-Quiet x s p.0 round), rest),
        kept ∙ round.sources,
      )

Quiet-scan :
    (fl : Floats) (c : Context) (current : ℕ) (xs : List Source) (s : Store)
    → All (λ x. Quiet fl current x s) xs
    → evaluate_sources fl c current xs s ≡ ok (s, 0)
unfolding evaluate_sources
Quiet-scan fl c current [] s q = refl
Quiet-scan fl c current (x ∷ xs) s (q, qs) =
    ap (λ m. m >>= λ r. evaluate_sources fl c current xs r.0 >>= λ t. ok (t.0, r.1 + t.1))
      (Quiet-evaluate_one c x s q)
    ∙ ap (λ m. m >>= λ t. ok (t.0, 0 + t.1)) (Quiet-scan fl c current xs s qs)

-- After a scan that went through, a scan of the result for the same time, at any later moment, changes no row and fires nothing:
-- a missed heartbeat is reported once.
pub evaluate_heartbeats_again :
    (fl : Floats) (c later : Context) (now : ℕ) (s : Store) {r : Store × ℕ}
    → evaluate_heartbeats fl c (some now) s ≡ ok r
    → evaluate_heartbeats fl later (some now) r.0 ≡ ok (r.0, 0)
unfolding evaluate_heartbeats
evaluate_heartbeats_again fl c later now s {r} g =
    let (quiet, kept) = scan-Quiet fl c now (keep is_watched s.sources) s g in
    ap (λ (xs : List Source). evaluate_sources fl later now (keep is_watched xs) r.0) kept
    ∙ Quiet-scan fl later now (keep is_watched s.sources) r.0 quiet
