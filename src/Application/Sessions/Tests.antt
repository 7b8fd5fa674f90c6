-- ===== src/Application/Sessions/Tests.antt =====
-- The rotation of a refresh token at a concrete input.
use alert_hub.Prelude.{◌≡◌, refl, true, none, some, [], ◌∷◌, ◌++◌, text_eq, text_beq, codes, ok}
use alert_hub.Toy.{or_default}
use alert_hub.Application.Rows.{AuthSession, User}
use alert_hub.Application.Store.{Store}
use alert_hub.Application.TestData.{context, store}
use alert_hub.Application.Sessions.Defs.{
  IssuedSession, Secrets, hash_token, rotate_session, rotated,
}
use alert_hub.Application.Sessions.Rotation.{rotate_session-once}

abbrev secrets : Secrets
secrets = record {
  signing_key = codes "k";
  hmac_sha256 = λ key message. message;
  refresh_sliding = 10;
  refresh_absolute = 100;
  drawn = [];
  csrf = codes "f";
}

abbrev user : User
user = record {
  id = codes "u";
  username = codes "ann";
  password_hash = codes "h";
  is_admin = true;
  created_at = 0;
  disabled_at = none;
}

abbrev session : AuthSession
session = record {
  id = codes "a";
  user_id = codes "u";
  refresh_token_hash = codes "refresh" ++ 0 ∷ codes "t";
  device_name = codes "phone";
  created_at = 1;
  last_used_at = 1;
  expires_at = 11;
  absolute_expires_at = 101;
  revoked_at = none;
}

abbrev signed_in : Store
signed_in = record store { users = user ∷ []; sessions = session ∷ [] }

abbrev issued : IssuedSession
issued = record {
  refresh_token = [];
  csrf_token = codes "f";
  session = rotated (context 5) secrets session;
}

abbrev after : Store
after = (or_default (store, none) (rotate_session (context 5) secrets (codes "t") signed_in)).0

rotated_once : rotate_session (context 5) secrets (codes "t") signed_in ≡ ok (after, some issued)
unfolding rotate_session text_beq
rotated_once = refl

rotate_session-once_example :
    rotate_session (context 7) secrets (codes "t") after ≡ ok (after, none)
unfolding text_beq hash_token
rotate_session-once_example =
    rotate_session-once (context 5) (context 7) secrets secrets (codes "t") signed_in after issued
      (refl, tt) (refl, tt) refl (λ h. absurd (cc)) rotated_once
