-- ===== src/Application/Sessions/Rotation.antt =====
-- A refresh token is good for one rotation.
use mathlib.Core.Path.{subst}
use alert_hub.Prelude.{
  ℕ, ◌≡◌, ◌≢◌, refl, ap, ◌∙◌, Bool, true, false, Option, none, some, List, [], ◌∷◌, Text, text_eq,
  text_beq_iff, ◌==◌, Distinct, contains, codes, find, map, arith, ok, ok_injective, >>=-eq-ok,
}
use alert_hub.Prelude.Table.{save}
use alert_hub.Application.Rows.{AuthSession}
use alert_hub.Application.Store.{Context, Store, append_cluster_event}
use alert_hub.Application.Sessions.Defs.{
  IssuedSession, Secrets, has_refresh, hash_token, is_unusable, rotate_found, rotate_session,
  rotate_usable, rotated, session_of_refresh, session_cluster_payload,
}
use alert_hub.Runtime.{Fields}
use alert_hub.Application.Sync.Bootstrap.{save_session}

-- No row has the token.
find-none :
    (hash : Text) (rows : List AuthSession)
    → contains hash (map (λ (a : AuthSession). a.refresh_token_hash) rows) ≡ false
    → find (has_refresh hash) rows ≡ none
find-none hash [] h = refl
find-none hash (b ∷ rows) h = ground (arith, h, find-none hash rows)

find-named :
    (hash : Text) (rows : List AuthSession) {a : AuthSession}
    → find (has_refresh hash) rows ≡ some a
    → contains a.id (map (λ (b : AuthSession). b.id) rows) ≡ true
find-named hash [] h = cc
find-named hash (b ∷ rows) {a} h =
    ground (arith, h, find-named hash rows {a = a}, text_beq_iff b.id b.id)

-- The row of a token with another token in its place.
find-save :
    (hash : Text) (rows : List AuthSession) (a b : AuthSession)
    → find (has_refresh hash) rows ≡ some a
    → Distinct (map (λ (x : AuthSession). x.refresh_token_hash) rows)
    → Distinct (map (λ (x : AuthSession). x.id) rows)
    → b.id ≡ a.id
    → (hash == b.refresh_token_hash) ≡ false
    → find (has_refresh hash) (save (λ (x : AuthSession). x.id) b rows) ≡ none
unfolding save
find-save hash [] a b found tokens ids same other = cc
find-save hash (x ∷ rows) a b found tokens ids same other = ground (
  arith,
  found,
  tokens,
  ids,
  same,
  other,
  text_beq_iff hash x.refresh_token_hash,
  text_beq_iff b.id x.id,
  find-none hash rows,
  find-named hash rows {a = a},
  find-save hash rows a b,
)

append_cluster_event-sessions :
    (c : Context) (t i o : Text) (payload : Fields) (at : ℕ) (e : Option Text) (s : Store)
    → (append_cluster_event c t i o payload at e s).0.sessions ≡ s.sessions
unfolding append_cluster_event
append_cluster_event-sessions c t i o payload at e s = refl

rotate_usable-sessions :
    (c : Context) (k : Secrets) (hash : Text) (a : AuthSession) (unusable : Bool) (s t : Store)
    (issued : IssuedSession)
    → find (has_refresh hash) s.sessions ≡ some a
    → Distinct (map (λ (x : AuthSession). x.refresh_token_hash) s.sessions)
    → Distinct (map (λ (x : AuthSession). x.id) s.sessions)
    → hash ≢ hash_token k k.drawn (codes "refresh")
    → rotate_usable c k a unusable s ≡ (t, some issued)
    → session_of_refresh hash t ≡ none
rotate_usable-sessions c k hash a true s t issued found tokens ids new_token h = ground (arith, h)
rotate_usable-sessions c k hash a false s t issued found tokens ids new_token h =
    let b = rotated c k a in
    subst (λ (q : Store × Option IssuedSession). session_of_refresh hash q.0 ≡ none) h
      (ap (find (has_refresh hash)) (
          append_cluster_event-sessions c (codes "session") b.id (codes "rotate")
            (session_cluster_payload c.rt b) c.now none (save_session b s))
        ∙ find-save hash s.sessions a b found tokens ids refl
            (ground (arith, new_token, text_beq_iff hash b.refresh_token_hash)))

rotate_found-sessions :
    (c : Context) (k : Secrets) (hash : Text) (s t : Store) (issued : IssuedSession)
    (o : Option AuthSession)
    → session_of_refresh hash s ≡ o
    → Distinct (map (λ (x : AuthSession). x.refresh_token_hash) s.sessions)
    → Distinct (map (λ (x : AuthSession). x.id) s.sessions)
    → hash ≢ hash_token k k.drawn (codes "refresh")
    → rotate_found c k o s ≡ ok (t, some issued)
    → session_of_refresh hash t ≡ none
rotate_found-sessions c k hash s t issued none found tokens ids new_token h = ground (arith, h)
rotate_found-sessions c k hash s t issued (some a) found tokens ids new_token h =
    let (unusable, called, done) = >>=-eq-ok (is_unusable c.now a s) _ h in
    rotate_usable-sessions c k hash a unusable s t issued found tokens ids new_token
      (ok_injective _ _ done)

-- A refresh token that was rotated, in a table where no two sessions have one id or one token, finds
-- no session from then on, if the new token has another hash: to use it again changes nothing and
-- issues nothing, at whatever time.
pub rotate_session-once :
    (c d : Context) (k l : Secrets) (raw : Text) (s t : Store) (issued : IssuedSession)
    → Distinct (map (λ (x : AuthSession). x.refresh_token_hash) s.sessions)
    → Distinct (map (λ (x : AuthSession). x.id) s.sessions)
    → hash_token l raw (codes "refresh") ≡ hash_token k raw (codes "refresh")
    → hash_token k raw (codes "refresh") ≢ hash_token k k.drawn (codes "refresh")
    → rotate_session c k raw s ≡ ok (t, some issued)
    → rotate_session d l raw t ≡ ok (t, none)
unfolding rotate_session
rotate_session-once c d k l raw s t issued tokens ids one_key new_token h =
    rw
      (
        one_key,
        rotate_found-sessions c k (hash_token k raw (codes "refresh")) s t issued
            (session_of_refresh (hash_token k raw (codes "refresh")) s) refl tokens ids new_token h,
      )
      refl
