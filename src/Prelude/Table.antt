-- ===== src/Prelude/Table.antt =====
-- A table of rows with a key: the row of a key, and a row written in its place or added.
use mathlib.Core.Path.{◌≡◌, refl}
use mathlib.Core.Option.{Option, some}
use mathlib.Core.List.{List, [], ◌∷◌}
use native.Mathlib.Omega.{arith}
use alert_hub.Prelude.Tests.{if◌then◌else◌}
use alert_hub.Prelude.Lists.{find}
use alert_hub.Prelude.Equality.{Eq, ◌==◌}

module _ {ℓ} {A K : Type ℓ} ⦃e : Eq K⦄ (key : A → K) where
  -- `db.get(Row, key)`
  abbrev pub row_of : K → List A → Option A
  row_of k rows = find (λ a. k == key a) rows

  -- `db.add(row)`, or the row after its object was changed.
  unfoldable pub save : A → List A → List A
  save a [] = a ∷ []
  save a (b ∷ rows) = if key a == key b then a ∷ rows else b ∷ save a rows

  pub row_of-save :
      (k : K) (a : A) (rows : List A)
      → row_of k (save a rows) ≡ (if k == key a then some a else row_of k rows)
  unfolding save
  row_of-save k a [] = refl
  row_of-save k a (b ∷ rows) = ground (
    arith,
    row_of-save k a rows,
    e.beq_iff k (key a),
    e.beq_iff k (key b),
    e.beq_iff (key a) (key b),
  )

  -- `db.delete(row)`
  unfoldable pub remove : K → List A → List A
  remove k [] = []
  remove k (b ∷ rows) = if k == key b then rows else b ∷ remove k rows

  -- Every row found by a key has the key.
  pub row_of-key : (k : K) (rows : List A) (a : A) → row_of k rows ≡ some a → key a ≡ k
  row_of-key k [] a h = cc
  row_of-key k (b ∷ rows) a h = ground (arith, h, e.beq_iff k (key b), row_of-key k rows a)
