-- ===== src/Application/Incidents/Reproject.antt =====
-- `reproject_incident`.
use alert_hub.Prelude.{
  ℕ, max, Bool, true, false, Option, none, some, List, [], ◌∷◌, map, Text, codes, ◌==◌, text_eq,
  contains, keep, take, last?, or_else, Result, ok, ◌>>=◌, if◌then◌else◌,
}
use alert_hub.Prelude.Order.{Order, nat_order, text_order, pair_order}
use alert_hub.Prelude.Sort.{sort_by}
use alert_hub.Runtime.{Value, Fields, Runtime, aware, get, has, truthy, py_str}
use alert_hub.Runtime.Value.{object}
use alert_hub.Domain.Events.Defs.{
  EventType, ProjectionEvent, IncidentProjection, is_acked, project_incident,
}
use alert_hub.Application.Rows.{Incident, IncidentEvent}
use alert_hub.Application.Store.{user_ids, Context, Store, put_incident}

-- `order_by(IncidentEvent.occurred_at, IncidentEvent.id)`
abbrev pub row_key : IncidentEvent → ℕ × Text
row_key e = (e.occurred_at, e.id)

abbrev pub row_order : Order (ℕ × Text)
row_order = pair_order nat_order text_order

unfoldable pub timeline : Text → Store → List IncidentEvent
unfolding sort_by
timeline incident_id s =
    sort_by row_order row_key (keep (λ e. incident_id == e.incident_id) s.incident_events)

abbrev pub projection_event : IncidentEvent → ProjectionEvent
projection_event e = record {
  event_id = e.id;
  event_type = e.event_type;
  occurred_at = aware e.occurred_at;
  payload = e.payload;
}

-- `max(row.occurred_at for row in rows)` if there are rows.
abbrev pub latest_time : List IncidentEvent → Option ℕ
latest_time [] = none
latest_time (e ∷ es) = elim (latest_time es) [
  | none ↦ some e.occurred_at
  | some t ↦ some (max e.occurred_at t)
]

-- `str(metadata.get(name, default))`
abbrev pub str_field : Runtime → Text → Text → Fields → Text
str_field rt name default metadata =
    if has name metadata then py_str rt (get name metadata) else default

-- `value if isinstance(value, dict) else default`
abbrev pub dict_or : Value → Fields → Fields
dict_or (object fs) default = fs
dict_or _ default = default

abbrev pub titled : IncidentEvent → Bool
titled e = truthy (get (codes "title") e.payload)

-- Title, description, severity, labels and annotations of the newest row that has a title.
unfoldable pub refresh_metadata : Runtime → List IncidentEvent → Incident → Incident
unfolding py_str
refresh_metadata rt rows i = elim (last? (keep titled rows)) [
  | none ↦ i
  | some row ↦ record i {
    title = take 1024 (str_field rt (codes "title") i.title row.payload);
    description = str_field rt (codes "description") i.description row.payload;
    severity = take 16 (str_field rt (codes "severity") i.severity row.payload);
    labels = dict_or (get (codes "labels") row.payload) i.labels;
    annotations = dict_or (get (codes "annotations") row.payload) i.annotations;
  }
]

abbrev pub is_ack : EventType → Bool
is_ack EventType.acknowledged = true
is_ack _ = false

-- The user of the newest acknowledgement, if there is such a user.
abbrev pub acknowledger : Runtime → List Text → Option IncidentEvent → Option Text → Option Text
acknowledger rt users none old = old
acknowledger rt users (some row) old =
    let actor = get (codes "actor_user_id") row.payload in
    if truthy actor
    then (if contains (py_str rt actor) users then some (py_str rt actor) else none)
    else none

-- The incident's own columns from its projection.
unfoldable pub apply_projection :
    Runtime → List Text → List IncidentEvent → IncidentProjection → Incident → Incident
apply_projection rt users rows p i =
    let j = record i {
      status = p.status;
      starts_at = or_else p.starts_at i.starts_at;
      resolved_at = p.resolved_at;
      acknowledged_at = p.acknowledged_at;
      last_event_at = or_else (latest_time rows) i.last_event_at;
    } in
    let k = refresh_metadata rt rows j in
    record k {
      acknowledged_by =
          if is_acked p.status
          then acknowledger rt users
              (last? (keep (λ (e : IncidentEvent). is_ack e.event_type) rows)) k.acknowledged_by
          else none;
    }

unfoldable pub reproject_incident : Context → Incident → Store → Result (Store × Incident)
reproject_incident c i s =
    let rows = timeline i.id s in
    project_incident c.rt c.now (map projection_event rows) >>= λ p.
    let j = apply_projection c.rt (user_ids s) rows p i in
    ok (record s { incidents = put_incident j s.incidents }, j)
