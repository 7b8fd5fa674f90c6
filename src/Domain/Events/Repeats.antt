-- ===== src/Domain/Events/Repeats.antt =====
-- At-least-once delivery: an event that stands in the timeline twice has the effect of one.
use alert_hub.Prelude.{
  ℕ, ◌≡◌, refl, sym, ap, ◌∙◌, true, List, [], ◌∷◌, Memᴰ, ok, ◌>>=◌, arith, inl, inr, Bool-cases,
  Permᴰ, Result-cases,
}
use mathlib.Core.List.Permᴰ
use alert_hub.Domain.Events.Order.{IdentifiesEvents}
use alert_hub.Prelude.Sort.{insert_by, sort_by, sort_by-perm_eq}
use alert_hub.Runtime.{Runtime, Fields}
use alert_hub.Domain.Time.{to_utc}
use alert_hub.Domain.Events.Defs.{
  EventType, IncidentProjection, ProjectionEvent, apply_type, step, run, initial, event_key,
  key_order, project_incident,
}

-- Every kind of event is idempotent on the state that it led to.
pub apply_type_twice :
    (rt : Runtime) (now : ℕ) (s : IncidentProjection) (k : EventType) (t : ℕ) (p : Fields)
    {s' : IncidentProjection}
    → apply_type rt now s k t p ≡ ok s'
    → apply_type rt now s' k t p ≡ ok s'
unfolding apply_type
apply_type_twice rt now s EventType.firing t p h = ground arith
apply_type_twice rt now s EventType.resolved t p h = ground arith
apply_type_twice rt now s EventType.acknowledged t p h = ground arith
apply_type_twice rt now s EventType.unacknowledged t p h = ground arith
apply_type_twice rt now s EventType.silenced t p h = ground arith
apply_type_twice rt now s EventType.unsilenced t p h = ground arith
apply_type_twice rt now s (EventType.other k) t p h = ground arith

key_le_self : (e : ProjectionEvent) → key_order.le (event_key e) (event_key e) ≡ true
key_le_self e = elim (Bool-cases (key_order.le (event_key e) (event_key e))) [
  | inl p ↦ p
  | inr p ↦ key_order.le_total (event_key e) (event_key e) p
]

run_twice :
    (rt : Runtime) (now : ℕ) (s : IncidentProjection) (e : ProjectionEvent)
    (es : List ProjectionEvent)
    → run rt now s (e ∷ e ∷ es) ≡ run rt now s (e ∷ es)
unfolding run
run_twice rt now s e es = elim (Result-cases (step rt now s e)) [
  | inl (s', first) ↦
      rw first (rw (apply_type_twice rt now s e.event_type (to_utc e.occurred_at) e.payload first))
  | inr (x, failed) ↦ rw failed
]

run-insert_twice :
    (rt : Runtime) (now : ℕ) (s : IncidentProjection) (e : ProjectionEvent)
    (es : List ProjectionEvent)
    → run rt now s (insert_by key_order event_key e (insert_by key_order event_key e es))
      ≡ run rt now s (insert_by key_order event_key e es)
unfolding insert_by run
run-insert_twice rt now s e [] = rw (key_le_self e) (run_twice rt now s e [])
run-insert_twice rt now s e (z ∷ es) =
    elim (Bool-cases (key_order.le (event_key e) (event_key z))) [
      | inl first ↦ rw first (rw (key_le_self e) (run_twice rt now s e (z ∷ es)))
      | inr later ↦
          rw later (rw later λ i. step rt now s z >>= λ s'. run-insert_twice rt now s' e es i)
    ]

mem_front :
    (e : ProjectionEvent) (es : List ProjectionEvent)
    → Memᴰ e es
    → (rest : List ProjectionEvent) × Permᴰ es (e ∷ rest)
mem_front e [] m = elim m [ ]
mem_front e (x ∷ es) (Memᴰ.head p) = (es, Permᴰ.cons (sym p) (Permᴰ.refl es))
mem_front e (x ∷ es) (Memᴰ.tail m) =
    let (rest, q) = mem_front e es m in
    (x ∷ rest, Permᴰ.trans (Permᴰ.cons refl q) (Permᴰ.swap refl refl))

-- An event that the timeline already holds can be delivered again, in any place, and the
-- projection stays the same, where a time and an id identify each event.
pub project_incident-repeat :
    (rt : Runtime) (now : ℕ) (e : ProjectionEvent) (es : List ProjectionEvent)
    → IdentifiesEvents es
    → Memᴰ e es
    → project_incident rt now (e ∷ es) ≡ project_incident rt now es
unfolding project_incident
project_incident-repeat rt now e es h m =
    let (rest, p) = mem_front e es m in
    let sorted : sort_by key_order event_key es ≡ sort_by key_order event_key (e ∷ rest) =
      sort_by-perm_eq key_order event_key es (e ∷ rest) h p in
    ap (λ l. run rt now initial (insert_by key_order event_key e l)) sorted
    ∙ run-insert_twice rt now initial e (sort_by key_order event_key rest)
    ∙ ap (run rt now initial) (sym sorted)
