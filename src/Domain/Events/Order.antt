-- ===== src/Domain/Events/Order.antt =====
-- The projection depends on the collection of events, not on the order of their arrival.
use alert_hub.Prelude.{ℕ, ◌≡◌, ap, List, Memᴰ, Permᴰ}
use alert_hub.Prelude.Sort.{sort_by-perm_eq}
use alert_hub.Runtime.{Runtime}
use alert_hub.Domain.Events.Defs.{
  ProjectionEvent, event_key, key_order, initial, run, project_incident,
}

-- Within the timeline a time and an id identify an event.
abbrev pub IdentifiesEvents : List ProjectionEvent → Type 0
IdentifiesEvents es =
    (a b : ProjectionEvent) → Memᴰ a es → Memᴰ b es → event_key a ≡ event_key b → a ≡ b

-- Two timelines with the same events in any order have the same projection, and raise alike, where
-- the time and the id identify each event.
pub project_incident-perm :
    (rt : Runtime) (now : ℕ) (xs ys : List ProjectionEvent)
    → IdentifiesEvents xs
    → Permᴰ xs ys
    → project_incident rt now xs ≡ project_incident rt now ys
unfolding project_incident
project_incident-perm rt now xs ys h p =
    ap (run rt now initial) (sort_by-perm_eq key_order event_key xs ys h p)
