-- ===== src/Application/Sync/Nodes.antt =====
-- Nodes: `node_cluster_payload`, `register_local_node_event`, `_project_node` and
-- `_project_node_api_alert_setting`.
use alert_hub.Prelude.{
  ℕ, max, Bool, true, false, not, ◌&&◌, Option, none, some, [], Text, text_eq, nat_eq, ◌==◌, codes,
  or_else, Result, ok, type_error, ◌>>=◌, ◌>>◌, raise_if, if◌then◌else◌,
}
use alert_hub.Prelude.Table.{row_of, save}
use alert_hub.Runtime.{
  Value, Values, Fields, Runtime, get, has, truthy, py_str, str_or_none, str_list, flag, text_array,
  text_or_null, text_values,
}
use alert_hub.Runtime.Value.{null, boolean, number, text, array, object}
use alert_hub.Runtime.Values.{nil, cons}
use alert_hub.Runtime.Fields.{end, field}
use alert_hub.Application.Rows.{ClusterEvent, Node}
use alert_hub.Application.Store.{Context, Store, append_cluster_event}
use alert_hub.Application.Sync.History.{
  latest_entity_event, payload_time, payload_datetime, text_field,
}

abbrev pub node_of : Text → Store → Option Node
node_of i s = row_of (λ (n : Node). n.id) i s.nodes

abbrev pub save_node : Node → Store → Store
save_node n s = record s { nodes = save (λ (m : Node). m.id) n s.nodes }

unfoldable pub node_cluster_payload : Runtime → Node → Fields
unfolding text_values
node_cluster_payload rt n = field (codes "name") (text n.name) (
    field (codes "region") (text n.region) (
      field (codes "public_api_url") (text_or_null n.public_api_url) (
        field (codes "private_peer_url") (text_or_null n.private_peer_url) (
          field (codes "enabled_roles") (text_array n.enabled_roles) (
            field (codes "created_at") (text (rt.iso_format n.created_at))
              (field (codes "software_version") (text n.software_version) end))))))

-- `bool` is a number in Python.
abbrev pub as_number : Bool → ℕ
as_number true = 1
as_number false = 0

-- Every key of the second is one of the first.
unfoldable pub keys_within : Fields → Fields → Bool
keys_within fs end = true
keys_within fs (field k v gs) = has k fs && keys_within fs gs

-- Python's `==` of what a JSON text holds. No two keys of an object are equal.
unfoldable mutual
  pub same_value : Value → Value → Bool
  same_value null null = true
  same_value (boolean a) (boolean b) = as_number a == as_number b
  same_value (boolean a) (number b) = as_number a == b
  same_value (number a) (boolean b) = a == as_number b
  same_value (number a) (number b) = a == b
  same_value (text a) (text b) = a == b
  same_value (array a) (array b) = same_values a b
  same_value (object a) (object b) = same_within a b && keys_within a b
  same_value _ _ = false

  pub same_values : Values → Values → Bool
  same_values nil nil = true
  same_values (cons v vs) (cons w ws) = same_value v w && same_values vs ws
  same_values _ _ = false

  pub same_within : Fields → Fields → Bool
  same_within end gs = true
  same_within (field k v fs) gs = has k gs && (same_value v (get k gs) && same_within fs gs)

abbrev pub upsert : Text
upsert = codes "upsert"

abbrev pub is_current : Fields → Option ClusterEvent → Bool
is_current payload none = false
is_current payload (some e) =
    e.operation == upsert && same_value (object e.payload) (object payload)

unfoldable pub register_node : Context → Option Node → Store → Store
unfolding same_value node_cluster_payload
register_node c none s = s
register_node c (some n) s =
    let payload = node_cluster_payload c.rt n in
    if is_current payload (latest_entity_event (codes "node") n.id s)
    then s
    else (append_cluster_event c (codes "node") n.id upsert payload c.now none s).0

unfoldable pub register_local_node_event : Context → Store → Store
register_local_node_event c s = register_node c (node_of c.node_id s) s

-- `list(value or [])` does not raise.
abbrev pub is_iterable : Value → Bool
is_iterable (text s) = true
is_iterable (array vs) = true
is_iterable (object fs) = true
is_iterable v = not (truthy v)

unfoldable pub node_or_new : Runtime → Text → ClusterEvent → ℕ → Option Node → Result Node
unfolding truthy
node_or_new rt entity_id e created_at (some n) = ok n
node_or_new rt entity_id e created_at none =
    raise_if (not (is_iterable (get (codes "enabled_roles") e.payload))) type_error
    >> ok (record {
      id = entity_id;
      name = text_field rt 255 (codes "name") entity_id e.payload;
      region = text_field rt 128 (codes "region") (codes "unknown") e.payload;
      public_api_url = none;
      private_peer_url = none;
      enabled_roles = [];
      created_at = created_at;
      last_seen_at = none;
      software_version = codes "unknown";
      api_down_alert_enabled = false;
    })

-- The node after its latest event.
unfoldable pub node_row : Runtime → Text → ClusterEvent → Option Node → Result Node
unfolding node_or_new payload_datetime py_str
node_row rt entity_id e existing = do
  created_at ← payload_time rt (codes "created_at") e
  n ← node_or_new rt entity_id e created_at existing
  ok (record n {
    name = text_field rt 255 (codes "name") n.name e.payload;
    region = text_field rt 128 (codes "region") n.region e.payload;
    public_api_url = str_or_none rt (get (codes "public_api_url") e.payload);
    private_peer_url = str_or_none rt (get (codes "private_peer_url") e.payload);
    enabled_roles = str_list rt (get (codes "enabled_roles") e.payload);
    software_version = text_field rt 64 (codes "software_version") (codes "unknown") e.payload;
    last_seen_at = some (max (or_else n.last_seen_at e.occurred_at) e.occurred_at);
  })

abbrev pub set_alert : Option ClusterEvent → Option Node → Store → Store
set_alert (some e) (some n) s =
    save_node (record n { api_down_alert_enabled = flag (codes "enabled") false e.payload }) s
set_alert _ _ s = s

unfoldable pub project_node_api_alert_setting : Text → Store → Store
unfolding save
project_node_api_alert_setting entity_id s =
    set_alert (latest_entity_event (codes "node_api_alert_setting") entity_id s)
      (node_of entity_id s) s

abbrev pub project_node_event : Context → Text → Option ClusterEvent → Store → Result Store
project_node_event c entity_id none s = ok s
project_node_event c entity_id (some e) s = node_row c.rt entity_id e (node_of entity_id s) >>= λ n.
    ok (project_node_api_alert_setting entity_id (save_node n s))

unfoldable pub project_node : Context → Text → Store → Result Store
unfolding node_row latest_entity_event save
project_node c entity_id s =
    project_node_event c entity_id (latest_entity_event (codes "node") entity_id s) s
