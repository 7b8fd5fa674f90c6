-- ===== src/Application/Sessions/Defs.antt =====
-- `issue_session`, `rotate_session` and `issue_service_token`, with `hash_token` and
-- `encode_service_token` of backend/alert_hub/security.py. The signed access token is left out.
use alert_hub.Prelude.{
  ℕ, ◌+◌, min, Bool, true, false, ◌||◌, Option, none, some, is_some, [], ◌∷◌, ◌++◌, Text, text_eq,
  ◌==◌, codes, find, leb, nonempty, take, Result, ok, raise, attribute_error, ◌>>=◌, if◌then◌else◌,
}
use alert_hub.Prelude.Texts.{strip}
use alert_hub.Runtime.{Fields, Runtime, iso_or_null, text_array, text_values}
use alert_hub.Runtime.Value.{text}
use alert_hub.Runtime.Fields.{end, field}
use alert_hub.Application.Rows.{AuthSession, ServiceToken, User}
use alert_hub.Application.Store.{Context, Store, append_cluster_event}
use alert_hub.Application.PushSessions.{disable_session_push_subscriptions}
use alert_hub.Application.Sync.Registration.{user_of}
use alert_hub.Application.Sync.Bootstrap.{save_session, save_token}

-- The settings and the cryptography: `hmac.new(key, message, sha256).hexdigest()`, and the two random
-- tokens that an operation draws. Durations are whole microseconds.
pub record Secrets : Type 0 where
  pub signing_key : Text
  pub hmac_sha256 : Text → Text → Text
  pub refresh_sliding : ℕ
  pub refresh_absolute : ℕ
  pub drawn : Text
  pub csrf : Text

unfoldable pub hash_token : Secrets → Text → Text → Text
hash_token k token purpose = k.hmac_sha256 k.signing_key (purpose ++ 0 ∷ token)

abbrev pub encode_service_token : Text → Text → Text
encode_service_token token_id secret = codes "ahs_" ++ (token_id ++ (codes "." ++ secret))

unfoldable pub session_cluster_payload : Runtime → AuthSession → Fields
session_cluster_payload rt a = field (codes "user_id") (text a.user_id) (
    field (codes "refresh_token_hash") (text a.refresh_token_hash) (
      field (codes "device_name") (text a.device_name) (
        field (codes "created_at") (text (rt.iso_format a.created_at)) (
          field (codes "last_used_at") (text (rt.iso_format a.last_used_at)) (
            field (codes "expires_at") (text (rt.iso_format a.expires_at)) (
              field (codes "absolute_expires_at") (text (rt.iso_format a.absolute_expires_at))
                (field (codes "revoked_at") (iso_or_null rt a.revoked_at) end)))))))

unfoldable pub service_token_cluster_payload : Runtime → ServiceToken → Fields
unfolding text_values
service_token_cluster_payload rt t = field (codes "user_id") (text t.user_id) (
    field (codes "name") (text t.name) (
      field (codes "token_hash") (text t.token_hash) (
        field (codes "scopes") (text_array t.scopes) (
          field (codes "created_at") (text (rt.iso_format t.created_at)) (
            field (codes "expires_at") (text (rt.iso_format t.expires_at))
              (field (codes "revoked_at") (iso_or_null rt t.revoked_at) end))))))

-- The row, and its cluster event.
abbrev pub publish_session : Context → AuthSession → Text → Store → Store
publish_session c a operation s =
    (append_cluster_event c (codes "session") a.id operation (session_cluster_payload c.rt a) c.now
      none (save_session a s)).0

pub record IssuedSession : Type 0 where
  pub refresh_token : Text
  pub csrf_token : Text
  pub session : AuthSession

abbrev pub device_or_unknown : Text → Text
device_or_unknown name = if nonempty name then name else codes "Unknown device"

unfoldable pub issue_session : Context → Secrets → User → Text → Store → Store × IssuedSession
unfolding hash_token session_cluster_payload
issue_session c k user device_name s =
    let absolute = c.now + k.refresh_absolute in
    let a : AuthSession = record {
      id = c.mint s.minted;
      user_id = user.id;
      refresh_token_hash = hash_token k k.drawn (codes "refresh");
      device_name = device_or_unknown (take 255 device_name);
      created_at = c.now;
      last_used_at = c.now;
      expires_at = min (c.now + k.refresh_sliding) absolute;
      absolute_expires_at = absolute;
      revoked_at = none;
    } in
    (
      publish_session c a (codes "issued") (record s { minted = s.minted + 1 }),
      record { refresh_token = k.drawn; csrf_token = k.csrf; session = a },
    )

-- The raw token and its row; the lifetime is in days in the source.
unfoldable pub issue_service_token :
    Context → Secrets → User → Text → ℕ → Store → Store × (Text × ServiceToken)
unfolding hash_token service_token_cluster_payload strip
issue_service_token c k user name lifetime s =
    let token_id = c.mint s.minted in
    let t : ServiceToken = record {
      id = token_id;
      user_id = user.id;
      name = strip name;
      token_hash = hash_token k k.drawn (codes "service-token:" ++ token_id);
      scopes = codes "mcp:read" ∷ [];
      created_at = c.now;
      expires_at = c.now + lifetime;
      revoked_at = none;
    } in
    let saved = save_token t (record s { minted = s.minted + 1 }) in
    (
      (append_cluster_event c (codes "service_token") t.id (codes "upsert")
          (service_token_cluster_payload c.rt t) c.now none saved).0,
      (encode_service_token token_id k.drawn, t),
    )

abbrev pub has_refresh : Text → AuthSession → Bool
has_refresh hash a = hash == a.refresh_token_hash

-- The session of a refresh token.
abbrev pub session_of_refresh : Text → Store → Option AuthSession
session_of_refresh hash s = find (has_refresh hash) s.sessions

-- `session.user.disabled_at is not None`
abbrev pub is_disabled_user : Option User → Result Bool
is_disabled_user none = raise attribute_error
is_disabled_user (some u) = ok (is_some u.disabled_at)

abbrev pub is_over : ℕ → AuthSession → Bool
is_over now a = is_some a.revoked_at || (leb a.expires_at now || leb a.absolute_expires_at now)

abbrev pub is_unusable : ℕ → AuthSession → Store → Result Bool
is_unusable now a s = if is_over now a then ok true else is_disabled_user (user_of a.user_id s)

-- The session is revoked if it was not, and its subscriptions are disabled.
abbrev pub revoke_session : Context → AuthSession → Option ℕ → Store → Store
revoke_session c a (some t) s = (disable_session_push_subscriptions c a.id (some t) s).0
revoke_session c a none s =
    (disable_session_push_subscriptions c a.id (some c.now)
      (publish_session c (record a { revoked_at = some c.now }) (codes "revoke") s)).0

-- The row with the new token.
abbrev pub rotated : Context → Secrets → AuthSession → AuthSession
rotated c k a = record a {
  refresh_token_hash = hash_token k k.drawn (codes "refresh");
  last_used_at = c.now;
  expires_at = min (c.now + k.refresh_sliding) a.absolute_expires_at;
}

abbrev pub rotate_usable :
    Context → Secrets → AuthSession → Bool → Store → Store × Option IssuedSession
rotate_usable c k a true s = (revoke_session c a a.revoked_at s, none)
rotate_usable c k a false s = (
  publish_session c (rotated c k a) (codes "rotate") s,
  some (record { refresh_token = k.drawn; csrf_token = k.csrf; session = rotated c k a }),
)

abbrev pub rotate_found :
    Context → Secrets → Option AuthSession → Store → Result (Store × Option IssuedSession)
rotate_found c k none s = ok (s, none)
rotate_found c k (some a) s =
    is_unusable c.now a s >>= λ unusable. ok (rotate_usable c k a unusable s)

unfoldable pub rotate_session :
    Context → Secrets → Text → Store → Result (Store × Option IssuedSession)
unfolding hash_token session_cluster_payload disable_session_push_subscriptions
rotate_session c k raw_refresh s =
    rotate_found c k (session_of_refresh (hash_token k raw_refresh (codes "refresh")) s) s
