-- ===== src/Prelude/Dict.antt =====
-- A Python dict as an association list in insertion order.
use Prim.Native.Nat.{◌+◌, ◌≤◌}
use mathlib.Core.Path.{◌≡◌, refl}
use mathlib.Core.Logic.{◌≢◌}
use mathlib.Core.Bool.{true}
use mathlib.Core.Option.{Option, none, some}
use mathlib.Core.List.{List, [], ◌∷◌}
use native.Mathlib.Omega.{arith}
use alert_hub.Prelude.Tests.{if◌then◌else◌, is_some}
use alert_hub.Prelude.Lists.{length}
use alert_hub.Prelude.Equality.{Eq, ◌==◌, beq_self}

abbrev pub Dict {ℓ} : Type ℓ → Type ℓ → Type ℓ
Dict K V = List (K × V)

module _ {ℓ} {K V : Type ℓ} where
  abbrev pub keys : Dict K V → List K
  keys [] = []
  keys (e ∷ d) = e.0 ∷ keys d

  abbrev pub values : Dict K V → List V
  values [] = []
  values (e ∷ d) = e.1 ∷ values d

module _ {ℓ} {K V : Type ℓ} ⦃e : Eq K⦄ where
  -- `d.get(k)`
  unfoldable pub lookup : K → Dict K V → Option V
  lookup k [] = none
  lookup k ((j, v) ∷ d) = if k == j then some v else lookup k d

  -- `d[k] = v`
  unfoldable pub insert : K → V → Dict K V → Dict K V
  insert k v [] = (k, v) ∷ []
  insert k v ((j, w) ∷ d) = if k == j then (j, v) ∷ d else (j, w) ∷ insert k v d

  -- `del d[k]`
  unfoldable pub erase : K → Dict K V → Dict K V
  erase k [] = []
  erase k ((j, w) ∷ d) = if k == j then d else (j, w) ∷ erase k d

  pub lookup-insert :
      (k j : K) (v : V) (d : Dict K V)
      → lookup j (insert k v d) ≡ (if j == k then some v else lookup j d)
  unfolding lookup insert
  lookup-insert k j v [] = refl
  lookup-insert k j v ((i, w) ∷ d) =
      ground (arith, lookup-insert k j v d, e.beq_iff j i, e.beq_iff k i, e.beq_iff j k)

  pub lookup-erase_ne : (k j : K) (d : Dict K V) → j ≢ k → lookup j (erase k d) ≡ lookup j d
  unfolding lookup erase
  lookup-erase_ne k j [] h = refl
  lookup-erase_ne k j ((i, w) ∷ d) h =
      ground (arith, lookup-erase_ne k j d h, e.beq_iff j i, e.beq_iff k i)

  pub length-insert_present :
      (k : K) (v : V) (d : Dict K V)
      → is_some (lookup k d) ≡ true
      → length (insert k v d) ≡ length d
  unfolding lookup insert
  length-insert_present k v [] h = cc
  length-insert_present k v ((i, w) ∷ d) h = ground (arith, length-insert_present k v d)

  pub length-insert_le : (k : K) (v : V) (d : Dict K V) → length (insert k v d) ≤ length d + 1
  unfolding insert
  length-insert_le k v [] = omega arith
  length-insert_le k v ((i, w) ∷ d) = ground (arith, length-insert_le k v d)

  pub length-erase_present :
      (k : K) (d : Dict K V) → is_some (lookup k d) ≡ true → length (erase k d) + 1 ≡ length d
  unfolding lookup erase
  length-erase_present k [] h = cc
  length-erase_present k ((i, w) ∷ d) h = ground (arith, length-erase_present k d)

  pub lookup-insert_self : (k : K) (v : V) (d : Dict K V) → lookup k (insert k v d) ≡ some v
  lookup-insert_self k v d = rw (lookup-insert k k v d) (rw (beq_self k))
