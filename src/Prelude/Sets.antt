-- ===== src/Prelude/Sets.antt =====
-- Python sets as lists without repetition: `set(xs)`, `len(set(xs))`, and appending what is new.
use mathlib.Core.Path.{◌≡◌, refl, ◌∙◌}
use mathlib.Core.Logic.{inl, inr}
use mathlib.Core.Bool.{Bool, true, false, ◌||◌}
use mathlib.Core.List.{List, [], ◌∷◌, ◌++◌, Permᴰ}
use mathlib.Core.List.Permᴰ
use Prim.Native.Nat.{◌≤◌}
use native.Mathlib.Omega.{arith}
use alert_hub.Prelude.Lists.{length, keep}
use alert_hub.Prelude.Tests.{if◌then◌else◌, Bool-cases}
use alert_hub.Prelude.Equality.{Eq, ◌==◌, contains, Distinct}

module _ {ℓ} {A : Type ℓ} ⦃e : Eq A⦄ where
  unfoldable pub dedup : List A → List A
  dedup [] = []
  dedup (x ∷ xs) = let rest = dedup xs in if contains x xs then rest else x ∷ rest

  -- `if x not in selected: selected.append(x)`
  unfoldable pub add_new : A → List A → List A
  add_new x selected = if contains x selected then selected else selected ++ x ∷ []

  unfoldable pub add_all_new : List A → List A → List A
  unfolding add_new
  add_all_new [] selected = selected
  add_all_new (x ∷ xs) selected = add_all_new xs (add_new x selected)

  pub contains-dedup : (a : A) (xs : List A) → contains a (dedup xs) ≡ contains a xs
  unfolding dedup
  contains-dedup a [] = refl
  contains-dedup a (x ∷ xs) = ground (arith, contains-dedup a xs, e.beq_iff a x)

  pub dedup-Distinct : (xs : List A) → Distinct (dedup xs)
  unfolding dedup
  dedup-Distinct [] = tt
  dedup-Distinct (x ∷ xs) = ground (arith, dedup-Distinct xs, contains-dedup x xs)

  pub contains-perm : (a : A) {xs ys : List A} → Permᴰ xs ys → contains a xs ≡ contains a ys
  contains-perm a Permᴰ.nil = refl
  contains-perm a (Permᴰ.cons p q) = ground (arith, contains-perm a q)
  contains-perm a (Permᴰ.swap p q) = ground arith
  contains-perm a (Permᴰ.trans p q) = contains-perm a p ∙ contains-perm a q

  beq_flip : (x y : A) → (x == y) ≡ false → (y == x) ≡ false
  beq_flip x y h = ground (arith, e.beq_iff x y, e.beq_iff y x)

  dedup-swap_same : (x y : A) (l : List A) → x ≡ y → Permᴰ (dedup (x ∷ y ∷ l)) (dedup (y ∷ x ∷ l))
  dedup-swap_same x y l p = rw p (Permᴰ.refl (dedup (y ∷ y ∷ l)))

  dedup-swap : (x y : A) (l : List A) → Permᴰ (dedup (x ∷ y ∷ l)) (dedup (y ∷ x ∷ l))
  unfolding dedup
  dedup-swap x y l = elim (Bool-cases (x == y)) [
    | inl same ↦ dedup-swap_same x y l ((e.beq_iff x y).0 same)
    | inr differ ↦ rw (differ, beq_flip x y differ) (go (contains x l) (contains y l))
  ]
    where
      go :
          (b c : Bool)
          → Permᴰ
              (if b
                then (if c then dedup l else y ∷ dedup l)
                else x ∷ (if c then dedup l else y ∷ dedup l))
              (if c
                then (if b then dedup l else x ∷ dedup l)
                else y ∷ (if b then dedup l else x ∷ dedup l))
      go true true = Permᴰ.refl (dedup l)
      go true false = Permᴰ.refl (y ∷ dedup l)
      go false true = Permᴰ.refl (x ∷ dedup l)
      go false false = Permᴰ.swap refl refl

  dedup-swap_eq :
      (a b a' b' : A) (l : List A)
      → a ≡ b'
      → b ≡ a'
      → Permᴰ (dedup (a ∷ b ∷ l)) (dedup (a' ∷ b' ∷ l))
  dedup-swap_eq a b a' b' l p q = rw (p, q) (dedup-swap b' a' l)

  pub dedup-perm : {xs ys : List A} → Permᴰ xs ys → Permᴰ (dedup xs) (dedup ys)
  unfolding dedup
  dedup-perm Permᴰ.nil = Permᴰ.nil
  dedup-perm (Permᴰ.cons {a = a} {b = b} {l₁ = l} {l₂ = m} p q) =
      rw (p, contains-perm b q)
        (elim (contains b m)
          as (λ c.
            Permᴰ (if c then dedup l else b ∷ dedup l) (if c then dedup m else b ∷ dedup m)) [
              | true ↦ dedup-perm q
              | false ↦ Permᴰ.cons refl (dedup-perm q)
            ])
  dedup-perm (Permᴰ.swap {a = a} {b = b} {a' = a'} {b' = b'} {l = l} p q) =
      dedup-swap_eq a b a' b' l p q
  dedup-perm (Permᴰ.trans p q) = Permᴰ.trans (dedup-perm p) (dedup-perm q)

  contains-append :
      (a : A) (xs ys : List A) → contains a (xs ++ ys) ≡ (contains a xs || contains a ys)
  contains-append a [] ys = refl
  contains-append a (x ∷ xs) ys = ground (arith, contains-append a xs ys)

  Distinct-append_new :
      (x : A) (xs : List A) → Distinct xs → contains x xs ≡ false → Distinct (xs ++ x ∷ [])
  Distinct-append_new x [] d h = (refl, tt)
  Distinct-append_new x (y ∷ xs) d h = ground (
    arith,
    Distinct-append_new x xs d.1,
    contains-append y xs (x ∷ []),
    e.beq_iff x y,
    e.beq_iff y x,
  )

  pub add_new-Distinct : (x : A) (xs : List A) → Distinct xs → Distinct (add_new x xs)
  unfolding add_new
  add_new-Distinct x xs d = ground (arith, Distinct-append_new x xs d)

  pub add_all_new-Distinct : (xs ys : List A) → Distinct ys → Distinct (add_all_new xs ys)
  unfolding add_all_new
  add_all_new-Distinct [] ys d = d
  add_all_new-Distinct (x ∷ xs) ys d =
      add_all_new-Distinct xs (add_new x ys) (add_new-Distinct x ys d)

  pub contains-add_new :
      (a x : A) (xs : List A) → contains a (add_new x xs) ≡ ((a == x) || contains a xs)
  unfolding add_new
  contains-add_new a x xs = ground (arith, contains-append a xs (x ∷ []), e.beq_iff a x)

  pub contains-add_all_new :
      (a : A) (xs ys : List A) → contains a (add_all_new xs ys) ≡ (contains a xs || contains a ys)
  unfolding add_all_new
  contains-add_all_new a [] ys = refl
  contains-add_all_new a (x ∷ xs) ys =
      ground (arith, contains-add_all_new a xs (add_new x ys), contains-add_new a x ys)

  pub Distinct-perm : {xs ys : List A} → Permᴰ xs ys → Distinct xs → Distinct ys
  Distinct-perm Permᴰ.nil d = tt
  Distinct-perm (Permᴰ.cons {b = b} p q) d = ground (arith, contains-perm b q, Distinct-perm q d.1)
  Distinct-perm (Permᴰ.swap {a = a} {b = b} p q) d = ground (arith, e.beq_iff a b, e.beq_iff b a)
  Distinct-perm (Permᴰ.trans p q) d = Distinct-perm q (Distinct-perm p d)

  pub length-dedup-le : (xs : List A) → length (dedup xs) ≤ length xs
  unfolding dedup
  length-dedup-le [] = omega arith
  length-dedup-le (x ∷ xs) = ground (arith, length-dedup-le xs)

  contains-keep :
      (p : A → Bool) (a : A) (xs : List A) → contains a xs ≡ false → contains a (keep p xs) ≡ false
  contains-keep p a [] h = refl
  contains-keep p a (x ∷ xs) h = ground (arith, h, contains-keep p a xs)

  pub keep-Distinct : (p : A → Bool) (xs : List A) → Distinct xs → Distinct (keep p xs)
  keep-Distinct p [] d = tt
  keep-Distinct p (x ∷ xs) d = ground (arith, d, keep-Distinct p xs d.1, contains-keep p x xs d.0)
