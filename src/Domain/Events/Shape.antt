-- ===== src/Domain/Events/Shape.antt =====
-- Which of the four times a projected status carries.
use alert_hub.Prelude.{ℕ, ◌≡◌, true, List, [], ◌∷◌, ok, >>=-eq-ok, Bool, is_some, is_none, arith}
use alert_hub.Prelude.Sort.{sort_by}
use alert_hub.Runtime.{Runtime, Fields}
use alert_hub.Domain.Events.Defs.{
  IncidentStatus, EventType, is_resolved, ProjectionEvent, IncidentProjection, initial, apply_type,
  step, run, event_key, key_order, project_incident,
}

-- The time that a status goes with.
abbrev pub has_own_time : IncidentProjection → IncidentStatus → Bool
has_own_time s IncidentStatus.open_incident = is_none s.acknowledged_at
has_own_time s IncidentStatus.acknowledged = is_some s.acknowledged_at
has_own_time s IncidentStatus.resolved = is_some s.resolved_at
has_own_time s IncidentStatus.silenced = is_some s.silenced_at

-- A resolution time stands exactly with the resolved status, and each status has its own time.
pub record IsCoherent (s : IncidentProjection) : Type 0 where
  pub resolved_time : is_some s.resolved_at ≡ is_resolved s.status
  pub own_time : has_own_time s s.status ≡ true

apply_type-IsCoherent :
    (rt : Runtime) (now : ℕ) (s : IncidentProjection) (k : EventType) (t : ℕ) (p : Fields)
    {s' : IncidentProjection}
    → IsCoherent s
    → apply_type rt now s k t p ≡ ok s'
    → IsCoherent s'
unfolding apply_type
apply_type-IsCoherent rt now s EventType.firing t p c h = ground arith
apply_type-IsCoherent rt now s EventType.resolved t p c h = ground arith
apply_type-IsCoherent rt now s EventType.acknowledged t p c h = ground arith
apply_type-IsCoherent rt now s EventType.unacknowledged t p c h = ground arith
apply_type-IsCoherent rt now s EventType.silenced t p c h = ground arith
apply_type-IsCoherent rt now s EventType.unsilenced t p c h = ground arith
apply_type-IsCoherent rt now s (EventType.other k) t p c h = ground arith

run-IsCoherent :
    (rt : Runtime) (now : ℕ) (s : IncidentProjection) (es : List ProjectionEvent)
    {s' : IncidentProjection}
    → IsCoherent s
    → run rt now s es ≡ ok s'
    → IsCoherent s'
unfolding run
run-IsCoherent rt now s [] c h = ground arith
run-IsCoherent rt now s (e ∷ es) c h =
    let (m, first, rest) = >>=-eq-ok (step rt now s e) (λ s''. run rt now s'' es) h in
    run-IsCoherent rt now m es (apply_type-IsCoherent rt now s e.event_type _ e.payload c first)
      rest

-- Of every timeline that projects: a resolution time stands exactly where the status is resolved,
-- an open incident has no acknowledgement time, and an acknowledged or silenced one has its time.
pub project_incident-IsCoherent :
    (rt : Runtime) (now : ℕ) (es : List ProjectionEvent) {s : IncidentProjection}
    → project_incident rt now es ≡ ok s
    → IsCoherent s
unfolding project_incident
project_incident-IsCoherent rt now es h =
    run-IsCoherent rt now initial (sort_by key_order event_key es) (ground arith) h
