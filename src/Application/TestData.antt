-- ===== src/Application/TestData.antt =====
-- The node, the source and the store of the tests.
use alert_hub.Prelude.{ℕ, true, Option, none, List, [], ◌∷◌, text_eq, codes}
use alert_hub.Toy.{toy}
use alert_hub.Runtime.Fields.{end}
use alert_hub.Domain.Severity.{Severity}
use alert_hub.Domain.Normalized.{EventStatus, NormalizedEvent}
use alert_hub.Application.Rows.{Source}
use alert_hub.Application.Store.{Context, Store}

abbrev pub context : ℕ → Context
context now = record { rt = toy; node_id = codes "n"; now = now; mint = λ k. k ∷ [] }

abbrev pub source : Source
source = record {
  id = codes "s";
  name = codes "pulse";
  kind = codes "heartbeat";
  enabled = true;
  region = none;
  config = end;
  token_hash = [];
  created_at = 0;
  updated_at = 0;
  deleted_at = none;
}

abbrev pub event : EventStatus → Option ℕ → NormalizedEvent
event status ends_at = record {
  dedup_key = codes "d";
  status = status;
  title = codes "t";
  description = [];
  severity = Severity.critical;
  starts_at = 3;
  ends_at = ends_at;
  labels = end;
  annotations = end;
  source_url = none;
  external_event_id = none;
  raw_payload = end;
}

abbrev pub batch : List NormalizedEvent
batch = event EventStatus.firing none ∷ []

abbrev pub store : Store
store = record {
  cluster_events = [];
  incidents = [];
  incident_events = [];
  outbox = [];
  sources = source ∷ [];
  heartbeats = [];
  nodes = [];
  users = [];
  sessions = [];
  service_tokens = [];
  channels = [];
  routes = [];
  subscriptions = [];
  deliveries = [];
  audit_logs = [];
  datasources = [];
  settings = [];
  minted = 1;
}
