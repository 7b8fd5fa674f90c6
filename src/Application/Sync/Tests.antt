-- ===== src/Application/Sync/Tests.antt =====
-- The theorems on the replication at concrete inputs.
use mathlib.Core.List.Permᴰ
use alert_hub.Application.Sync.Latest.{IsLatest, latest_entity_event-IsLatest}
use alert_hub.Application.Sync.History.{latest_entity_event, of_entity}
use alert_hub.Prelude.{
  ◌↔◌, ◌⊎◌, ◌≤◌, arith, keep, ℕ, ◌≡◌, refl, true, some, none, is_some, List, [], ◌∷◌, Text, text_eq,
  text_beq, codes, Memᴰ, ok,
}
use alert_hub.Toy.{toy, pair_identified}
use alert_hub.Runtime.{Fields, get}
use alert_hub.Runtime.DateTime.{aware}
use alert_hub.Runtime.Value.{text}
use alert_hub.Runtime.Fields.{end, field}
use alert_hub.Prelude.Order.{text_le}
use alert_hub.Domain.Checks.Aggregate.{sorted_set}
use alert_hub.Domain.Events.Defs.{IncidentStatus}
use alert_hub.Application.Rows.{AuthSession, ClusterEvent, Incident, PushSubscription, User}
use alert_hub.Application.Store.{Store, get_incident, find_incident}
use alert_hub.Application.TestData.{context, store}
use alert_hub.Application.Incidents.Ingest.{incident_projection_id}
use alert_hub.Application.Sync.History.{event_order, payload_datetime, revocation}
use alert_hub.Application.Sync.Push.{push_row}
use alert_hub.Application.Sync.Registration.{user_of}
use alert_hub.Application.Sync.Sessions.{is_revocation, session_row}
use alert_hub.Application.Sync.Accounts.{project_user}
use alert_hub.Application.Sync.Incidents.{canonical_incident, replicated_incident}
use alert_hub.Application.Sync.Apply.{IncomingClusterEvent, apply_cluster_events, record_events}
use alert_hub.Application.Sync.Converge.{RevokedBy, session_row-RevokedBy, session_row-perm}
use alert_hub.Application.Sync.Again.{apply_cluster_events-recorded}
use alert_hub.Application.Sync.Removal.{push_row-disabled}
use alert_hub.Application.Sync.Conflicts.{is_disabled, project_user-disabled}
use alert_hub.Application.Sync.Canonical.{incidents_of, canonical_incident-single}

abbrev event : ℕ → Text → Text → Text → Fields → ClusterEvent
event n entity_type entity_id operation payload = record {
  event_id = n ∷ [];
  origin_node_id = codes "m";
  origin_seq = n;
  entity_type = entity_type;
  entity_id = entity_id;
  operation = operation;
  occurred_at = n;
  payload = payload;
}

abbrev user : Text → User
user i = record {
  id = i;
  username = i;
  password_hash = codes "h";
  is_admin = true;
  created_at = 0;
  disabled_at = none;
}

abbrev with_events : List ClusterEvent → Store
with_events es = record store {
  cluster_events = es;
  users = user (codes "u") ∷ user (codes "v") ∷ [];
}

abbrev session_payload : Fields
session_payload =
    field (codes "user_id") (text (codes "u"))
      (field (codes "refresh_token_hash") (text (codes "t")) end)

abbrev revoked : ClusterEvent
revoked = event 2 (codes "session") (codes "a") (codes "revoke") end

abbrev rotated : ClusterEvent
rotated = event 5 (codes "session") (codes "a") (codes "upsert") session_payload

abbrev sessions : Store
sessions = with_events (rotated ∷ revoked ∷ [])

abbrev session : AuthSession
session = record {
  id = codes "a";
  user_id = codes "u";
  refresh_token_hash = codes "t";
  device_name = codes "Unknown device";
  created_at = 5;
  last_used_at = 5;
  expires_at = 5;
  absolute_expires_at = 5;
  revoked_at = some 2;
}

session_row_ok : session_row toy (codes "a") sessions ≡ ok (some session)
unfolding session_row get text_beq revocation
session_row_ok = refl

revoked-revocation : revocation toy is_revocation revoked ≡ ok (some 2)
unfolding revocation get text_beq
revoked-revocation = refl

session_row-RevokedBy_example : RevokedBy 2 session.revoked_at
unfolding text_beq
session_row-RevokedBy_example =
    session_row-RevokedBy toy (codes "a") sessions revoked 2 session_row_ok
      (Memᴰ.tail (Memᴰ.head refl)) revoked-revocation

session_row-perm_example :
    session_row toy (codes "a") sessions
    ≡ session_row toy (codes "a") (record sessions { cluster_events = revoked ∷ rotated ∷ [] })
session_row-perm_example =
    session_row-perm toy (codes "a") sessions (revoked ∷ rotated ∷ []) (Permᴰ.swap refl refl)
      (pair_identified event_order rotated revoked (λ h. absurd (cc)))

latest_entity_event-IsLatest_example :
    IsLatest
      (keep (of_entity (codes "session") (codes "a")) (revoked ∷ rotated ∷ []))
      (some rotated)
    ↔ (some rotated ≡ latest_entity_event (codes "session") (codes "a") sessions)
latest_entity_event-IsLatest_example =
    latest_entity_event-IsLatest (codes "session") (codes "a") sessions (revoked ∷ rotated ∷ [])
      (Permᴰ.swap refl refl) (pair_identified event_order rotated revoked (λ h. absurd (cc)))
      (some rotated)

abbrev incoming : IncomingClusterEvent
incoming = record {
  event_id = codes "x";
  origin_node_id = codes "m";
  origin_seq = 1;
  entity_type = codes "session";
  entity_id = codes "a";
  operation = codes "upsert";
  occurred_at = aware 3;
  payload = session_payload;
}

apply_cluster_events-recorded_example :
    let once = (record_events (incoming ∷ incoming ∷ []) (with_events [])).store in
    apply_cluster_events (context 9) (incoming ∷ incoming ∷ []) once
    ≡ ok (once, record { applied = 0; duplicates = 2 })
apply_cluster_events-recorded_example =
    apply_cluster_events-recorded (context 9) (incoming ∷ incoming ∷ []) (with_events [])

abbrev push_payload : Fields
push_payload = field (codes "user_id") (text (codes "u")) (
    field (codes "endpoint") (text (codes "e"))
      (field (codes "p256dh") (text (codes "p")) (field (codes "auth") (text (codes "q")) end)))

-- A removal at 2, and a delayed registration at 5.
abbrev pushes : Store
pushes = with_events (
    event 5 (codes "push_subscription") (codes "p") (codes "upsert") push_payload
    ∷ event 2 (codes "push_subscription") (codes "p") (codes "tombstone") push_payload
    ∷ [])

abbrev subscription : PushSubscription
subscription = record {
  id = codes "p";
  user_id = codes "u";
  session_id = none;
  device_name = codes "Installed PWA";
  endpoint = codes "e";
  p256dh = codes "p";
  auth = codes "q";
  user_agent = none;
  created_at = 5;
  last_success_at = none;
  disabled_at = some 2;
}

push_row_ok : push_row toy (codes "p") pushes ≡ ok (some subscription)
unfolding push_row get text_beq
push_row_ok = refl

push_row-disabled_example : is_some subscription.disabled_at ≡ true
unfolding text_beq
push_row-disabled_example = push_row-disabled toy (codes "p") pushes refl push_row_ok

-- Two nodes were set up apart.
abbrev bootstraps : Store
bootstraps = with_events (
    event 5 (codes "user") (codes "u") (codes "bootstrap") end
    ∷ event 2 (codes "user") (codes "v") (codes "bootstrap") end
    ∷ [])

project_user-disabled_example :
    (t : Store) × (project_user (context 9) (codes "u") bootstraps ≡ ok t)
    × (is_disabled (user_of (codes "v") t) ≡ true)
unfolding text_beq sorted_set text_le
project_user-disabled_example =
    project_user-disabled (context 9) (codes "u") bootstraps (codes "v") refl refl

-- An incident of the source with another fingerprint.
abbrev older : Incident
older = record {
  id = codes "old";
  source_id = codes "s";
  fingerprint = codes "g";
  title = [];
  description = [];
  severity = codes "critical";
  status = IncidentStatus.open_incident;
  labels = end;
  annotations = end;
  starts_at = 1;
  last_event_at = 1;
  resolved_at = none;
  acknowledged_at = none;
  acknowledged_by = none;
}

-- The store with an incident of another fingerprint.
abbrev with_older : Store
with_older = record store { incidents = older ∷ [] }

abbrev fired : ClusterEvent
fired = event 5 (codes "incident") (codes "i") (codes "firing") end

abbrev replicated : Incident
replicated =
    replicated_incident toy (incident_projection_id toy (codes "s") (codes "f")) (codes "s")
      (codes "f") 5 fired

projected :
    canonical_incident toy fired (codes "s") (codes "f") with_older
    ≡ ok (some (record with_older { incidents = replicated ∷ older ∷ [] }, replicated))
unfolding canonical_incident text_beq payload_datetime get incident_projection_id
projected = refl

one_at_most : incidents_of (codes "s") (codes "f") (older ∷ []) ≤ 1
unfolding text_beq
one_at_most = omega arith

canonical_incident-single_example :
    (get_incident
        (incident_projection_id toy (codes "s") (codes "f"))
        (record with_older { incidents = replicated ∷ older ∷ [] })
      ≡ some replicated)
    × (incidents_of (codes "s") (codes "f") (replicated ∷ older ∷ []) ≤ 1)
    × ((get_incident (incident_projection_id toy (codes "s") (codes "f")) with_older
          ≡ some replicated)
        ⊎ (find_incident (codes "s") (codes "f") with_older ≡ none))
canonical_incident-single_example =
    canonical_incident-single toy fired (codes "s") (codes "f") with_older (codes "s") (codes "f")
      projected one_at_most
