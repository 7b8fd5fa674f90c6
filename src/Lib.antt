-- ===== src/Lib.antt =====
-- Verification of the alert hub's backend, backend/alert_hub.
--
-- The hub takes in alerts, keeps an incident for each source and fingerprint, replicates the events
-- between nodes, and notifies. The parts modelled here, and how they meet:
--
-- Domain (backend/alert_hub/domain) has the pure rules.
--   Domain/Time, Severity, Normalized: as_utc, normalize_severity, NormalizedEvent, event_key and
--     incident_fingerprint of domain/events.py.
--   Domain/Events: project_incident, which turns a timeline into a status and its times. Defs has the
--     definitions; Order, Shape and Repeats prove.
--   Domain/Routing: Matcher has LabelMatcher and parse_matcher, Rules has RouteRule and
--     select_channel_ids, Nodes has eligible_node_ids, rank_delivery_nodes, rendezvous_rank (of
--     domain/events.py) and delivery_rank (of application/notifications.py); Selection, Ownership and
--     Owners prove.
--   Domain/Checks: Types, Views (_result_view), Parts (_part_status and the parts of a check),
--     Aggregate (aggregate_check) of domain/checks.py; PartLaws, Verdicts, Sources and
--     CheckLaws prove.
--   Domain/Adapters: normalize_generic and normalize_alertmanager of domain/adapters.py; Alerts
--     proves.
--   Domain/Monitoring: domain/monitoring.py.
-- Infrastructure/RateLimit: LocalRateLimiter of infrastructure/rate_limit.py; Limiter has the
--   operations; Room, Bounds and Quota prove. Infrastructure/Cidrs: normalize_cidrs of
--   infrastructure/request_security.py.
-- Application (backend/alert_hub/application) has the operations on the database.
--   Application/Rows: the rows of infrastructure/db/models.py. Application/Store: a node's database, as
--     tables (Prelude/Table) and as lists with the newest row first; append_cluster_event and
--     next_origin_seq of application/incidents.py.
--   Application/Outbox: should_deliver_notification and enqueue_notification_event of
--     application/notifications.py, which adds a row that the next flush writes; Once proves.
--   Application/Incidents: Reproject (reproject_incident), Ingest (ingest_normalized_events and
--     ingest_existing_resolutions) and UserEvents (append_user_event) of application/incidents.py;
--     Effects, Redelivery, Sequence and Secondary prove.
--   Application/Heartbeats: Observe has application/heartbeats.py; Evaluate has heartbeat_window of
--     domain/heartbeats.py and evaluate_heartbeats of workers/heartbeat.py; Rounds and Settled
--     prove.
--   Application/ClusterHealth: Defs has application/cluster_health.py; Recovery proves.
--   Application/Cursor: Defs has advance_peer_cursor of application/sync.py; Contiguous proves.
--   Application/Sync: the rest of application/sync.py. History has the history of an entity; Nodes,
--     Bootstrap, Sessions, Tokens, Accounts (users), Sources, Incidents, Channels, Routes, Config (data
--     sources and settings), Registration and Push (push subscriptions) and Replay (receipts that
--     waited) have the projections by entity; Apply has apply_cluster_events. Converge, Latest, Again,
--     Removal, Conflicts and Canonical prove.
--   Application/PushSessions: the state of push subscriptions, of application/auth.py.
--   Application/Sessions: Defs has the sessions and the service tokens of application/auth.py, with
--     hash_token of security.py; Rotation proves.
--   Application/Notifications: Messages, Deliveries, Timeline, Receipts (apply_delivery_receipt) and
--     Routes of application/notifications.py; Queue (claims), Ledger and Outcome (the transactions on
--     one delivery), Prepare, Provider, Dispatch (one target) and Worker (one item) of
--     workers/notifications.py; Backlog has what update_notification_backlog_metrics counts. Receive,
--     Claims, Retries and RoundTrip prove.
-- The intake calls the domain's identity, projection and severities, and the outbox; heartbeats and
-- cluster health call the intake with the store that they changed. The worker reads the outbox,
-- selects channels by the domain's routes and ranks, and writes receipts, which the replication of the
-- other nodes applies; the replication projects incidents again and puts their events into the outbox.
--
-- The sessions of the source do not flush by themselves. Where an operation adds a row and flushes it,
-- the row is in the store at once; a work item is added without a flush, and enters the store with the
-- flush that follows the call.
--
-- A call that raises returns the class of the exception and not the store, which the caller's
-- transaction rolls back. A transaction reads the clock once: the source reads utc_now() where it is
-- needed, and the model gives each of these readings one value. Ids that are made at random are a
-- stream with an index in the store. Instants are microseconds; texts are lists of code points; the
-- numbers in payloads are natural numbers, without floats and negative ones. A payload is a list of
-- named values, and its first value of a name is the one that counts.
--
-- What Python's library does is a parameter: the record Runtime (parsing and printing of datetimes and
-- numbers, str, lower, hashing, JSON, base64, addresses, URLs, regular expressions), and Floats for the
-- windows of the heartbeats. The record Secrets has the hash of tokens and the random tokens that are
-- drawn. The record Outside has the cipher, the providers, and what other
-- transactions do to the database while the worker waits. Delays are whole microseconds, and int
-- of a text is that of a natural number.
-- Toy has a small runtime, and the modules called Tests have the theorems at concrete inputs.
--
-- All loops of the modelled code run over finite lists and are structural recursion, without fuel.
--
-- Not modelled: the HTTP API, the providers of notifications and the encryption of their settings, the
-- network side of the replication, the loops and the metrics of the workers, the collection of check
-- results from Prometheus, statistics, passwords and signed access tokens, settings, logging
-- and metrics, the columns updated_at, and the database itself with its locks; of its constraints,
-- those that a projection can meet are written out, and the deletion of a timeline event takes its
-- deliveries along. The rest of the repository is the web interface, deployment and an MCP client.
pub mod Prelude
pub mod Runtime
pub mod Domain
pub mod Infrastructure
pub mod Application
pub mod Toy
