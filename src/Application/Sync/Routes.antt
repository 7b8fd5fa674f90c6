-- ===== src/Application/Sync/Routes.antt =====
-- `_project_notification_route`.
use alert_hub.Prelude.{
  ℕ, true, false, Option, none, some, List, [], ◌∷◌, Text, text_eq, nat_eq, codes, Result, ok,
  ◌>>=◌, if◌then◌else◌,
}
use alert_hub.Prelude.Int.{pos}
use alert_hub.Prelude.Table.{row_of, save}
use alert_hub.Runtime.{
  Value, Values, Fields, Runtime, get, flag, truthy, str_list, str_values, py_str, to_int,
}
use alert_hub.Runtime.Value.{array, object}
use alert_hub.Runtime.Values.{nil, cons}
use alert_hub.Application.Rows.{ClusterEvent, NotificationRoute}
use alert_hub.Application.Store.{Context, Store}
use alert_hub.Application.Sync.History.{is_tombstone, latest_entity_event, text_field}
use alert_hub.Application.Sync.Sources.{is_enabled}

abbrev pub route_of : Text → Store → Option NotificationRoute
route_of i s = row_of (λ (r : NotificationRoute). r.id) i s.routes

-- `[dict(item) for item in matchers if isinstance(item, dict)]`
unfoldable pub dicts : Values → List Fields
dicts nil = []
dicts (cons (object fs) vs) = fs ∷ dicts vs
dicts (cons _ vs) = dicts vs

abbrev pub dict_list : Value → List Fields
dict_list (array vs) = dicts vs
dict_list _ = []

abbrev pub route_or_new :
    Runtime → Text → ClusterEvent → Option NotificationRoute → NotificationRoute
route_or_new rt entity_id e (some r) = r
route_or_new rt entity_id e none = record {
  id = entity_id;
  name = text_field rt 255 (codes "name") entity_id e.payload;
  enabled = true;
  priority = pos 0;
  source_filter = [];
  severity_filter = [];
  label_matchers = [];
  channel_ids = [];
  continue_matching = false;
}

-- `int(payload.get("priority") or 0)`
abbrev pub priority_of : Runtime → Value → Result ℕ
priority_of rt v = if truthy v then to_int rt v else ok 0

unfoldable pub route_row :
    Runtime → Text → ClusterEvent → Option NotificationRoute → Result NotificationRoute
unfolding dicts str_values py_str truthy
route_row rt entity_id e existing = do
  priority ← priority_of rt (get (codes "priority") e.payload)
  let r = route_or_new rt entity_id e existing
  ok (record r {
    name = text_field rt 255 (codes "name") r.name e.payload;
    enabled = is_enabled e;
    priority = pos priority;
    source_filter = str_list rt (get (codes "source_filter") e.payload);
    severity_filter = str_list rt (get (codes "severity_filter") e.payload);
    label_matchers = dict_list (get (codes "label_matchers") e.payload);
    channel_ids = if is_tombstone e then [] else str_list rt (get (codes "channel_ids") e.payload);
    continue_matching = flag (codes "continue_matching") false e.payload;
  })

abbrev pub save_route : NotificationRoute → Store → Store
save_route r s = record s { routes = save (λ (q : NotificationRoute). q.id) r s.routes }

abbrev pub project_route_event : Context → Text → Option ClusterEvent → Store → Result Store
project_route_event c entity_id none s = ok s
project_route_event c entity_id (some e) s =
    route_row c.rt entity_id e (route_of entity_id s) >>= λ r. ok (save_route r s)

unfoldable pub project_notification_route : Context → Text → Store → Result Store
unfolding route_row latest_entity_event save
project_notification_route c entity_id s =
    project_route_event c entity_id (latest_entity_event (codes "notification_route") entity_id s) s
