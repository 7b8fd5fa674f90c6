-- ===== src/Application/Sync/Conflicts.antt =====
-- Two bootstraps of one cluster.
use mathlib.Core.Path.{subst}
use alert_hub.Prelude.{
  ℕ, ◌≡◌, refl, sym, Bool, true, false, Option, none, some, is_some, List, [], ◌∷◌, Text, text_eq,
  text_beq_iff, ◌==◌, ltb, length, keep, contains, arith, Bool-cases, inl, inr, ok,
}
use alert_hub.Prelude.Table.{row_of-save, row_of-key}
use alert_hub.Application.Rows.{ClusterEvent, User}
use alert_hub.Application.Store.{Context, Store}
use alert_hub.Application.Sync.Registration.{user_of}
use alert_hub.Application.Sync.Bootstrap.{
  disable_found, disable_users, is_bootstrap, record_bootstrap_conflict, user_ids_of,
}
use alert_hub.Application.Sync.Accounts.{project_user}

two_of_many : (n : ℕ) → ltb 1 n ≡ true → ltb n 2 ≡ false
two_of_many n h = ground arith

-- Whether a user, where there is one, is disabled.
abbrev pub is_disabled : Option User → Bool
is_disabled none = true
is_disabled (some u) = is_some u.disabled_at

disable_found-kept :
    (t : ℕ) (o : Option User) (j : Text) (s : Store)
    → is_disabled (user_of j s) ≡ true
    → is_disabled (user_of j (disable_found t o s)) ≡ true
disable_found-kept t none j s h = h
disable_found-kept t (some u) j s h =
    ground
      (arith, h, row_of-save (λ (v : User). v.id) j (record u { disabled_at = some t }) s.users)

disable_found-found :
    (t : ℕ) (o : Option User) (i : Text) (s : Store)
    → user_of i s ≡ o
    → is_disabled (user_of i (disable_found t o s)) ≡ true
disable_found-found t none i s h = ground (arith, h)
disable_found-found t (some u) i s h = ground (
  arith,
  h,
  row_of-key (λ (v : User). v.id) i s.users u h,
  text_beq_iff i u.id,
  row_of-save (λ (v : User). v.id) i (record u { disabled_at = some t }) s.users,
)

disable_users-kept :
    (t : ℕ) (is : List Text) (j : Text) (s : Store)
    → is_disabled (user_of j s) ≡ true
    → is_disabled (user_of j (disable_users t is s)) ≡ true
unfolding disable_users
disable_users-kept t [] j s h = h
disable_users-kept t (i ∷ is) j s h =
    disable_users-kept t is j (disable_found t (user_of i s) s)
      (disable_found-kept t (user_of i s) j s h)

disable_users-all :
    (t : ℕ) (is : List Text) (j : Text) (s : Store)
    → contains j is ≡ true
    → is_disabled (user_of j (disable_users t is s)) ≡ true
unfolding disable_users
disable_users-all t [] j s h = cc
disable_users-all t (i ∷ is) j s h = elim (Bool-cases (j == i)) [
  | inl same ↦ disable_users-kept t is j (disable_found t (user_of i s) s) (
      subst (λ k. is_disabled (user_of k (disable_found t (user_of i s) s)) ≡ true)
        (sym ((text_beq_iff j i).0 same)) (disable_found-found t (user_of i s) i s refl))
  | inr other ↦
      disable_users-all t is j (disable_found t (user_of i s) s) (ground (arith, h, other))
]

record_bootstrap_conflict-disabled :
    (c : Context) (events : List ClusterEvent) (s : Store) (i : Text)
    → ltb 1 (length (user_ids_of events)) ≡ true
    → contains i (user_ids_of events) ≡ true
    → is_disabled (user_of i (record_bootstrap_conflict c events s)) ≡ true
unfolding record_bootstrap_conflict
record_bootstrap_conflict-disabled c events s i many named =
    rw (two_of_many (length (user_ids_of events)) many)
      (disable_users-all _ (user_ids_of events) i _ named)

-- Where the history holds bootstraps of more than one user, the projection of any user goes through
-- and leaves each of those users disabled, if the database has them.
pub project_user-disabled :
    (c : Context) (entity_id : Text) (s : Store) (i : Text)
    → ltb 1 (length (user_ids_of (keep is_bootstrap s.cluster_events))) ≡ true
    → contains i (user_ids_of (keep is_bootstrap s.cluster_events)) ≡ true
    → (t : Store) × (project_user c entity_id s ≡ ok t) × (is_disabled (user_of i t) ≡ true)
unfolding project_user
project_user-disabled c entity_id s i many named =
    let bootstraps = keep is_bootstrap s.cluster_events in
    (
      record_bootstrap_conflict c bootstraps s,
      ground (arith, many),
      record_bootstrap_conflict-disabled c bootstraps s i many named,
    )
