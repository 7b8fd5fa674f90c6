-- ===== src/Prelude/Sort.antt =====
-- Python's `sorted(xs, key=key)`: a stable sort by the order of the keys.
use mathlib.Core.Path.{◌≡◌, refl, ap₂, ◌∙◌}
use mathlib.Core.Bool.{true}
use mathlib.Core.Logic.{inl, inr}
use mathlib.Core.List.{List, [], ◌∷◌, Memᴰ, Permᴰ}
use mathlib.Core.List.Permᴰ
use native.Mathlib.Omega.{arith}
use alert_hub.Prelude.Tests.{if◌then◌else◌, Bool-cases}
use alert_hub.Prelude.Lists.{All, All-of_mem, length}
use alert_hub.Prelude.Order.{Order}

module _ {ℓ κ} {A : Type ℓ} {K : Type κ} (o : Order K) (key : A → K) where
  -- Before the first element that is not smaller, so that equal keys keep their order.
  unfoldable pub insert_by : A → List A → List A
  insert_by x [] = x ∷ []
  insert_by x (y ∷ ys) =
      let later = insert_by x ys in if o.le (key x) (key y) then x ∷ y ∷ ys else y ∷ later

  unfoldable pub sort_by : List A → List A
  unfolding insert_by
  sort_by [] = []
  sort_by (x ∷ xs) = insert_by x (sort_by xs)

  abbrev pub IsSorted : List A → Type 0
  IsSorted [] = Unit
  IsSorted (x ∷ []) = Unit
  IsSorted (x ∷ y ∷ ys) = (o.le (key x) (key y) ≡ true) × IsSorted (y ∷ ys)

  insert_by-perm : (x : A) (ys : List A) → Permᴰ (insert_by x ys) (x ∷ ys)
  unfolding insert_by
  insert_by-perm x [] = Permᴰ.refl (x ∷ [])
  insert_by-perm x (y ∷ ys) = elim (Bool-cases (o.le (key x) (key y))) [
    | inl first ↦ rw first (Permᴰ.refl (x ∷ y ∷ ys))
    | inr later ↦
        rw later (Permᴰ.trans (Permᴰ.cons refl (insert_by-perm x ys)) (Permᴰ.swap refl refl))
  ]

  pub sort_by-perm : (xs : List A) → Permᴰ (sort_by xs) xs
  unfolding sort_by
  sort_by-perm [] = Permᴰ.nil
  sort_by-perm (x ∷ xs) =
      Permᴰ.trans (insert_by-perm x (sort_by xs)) (Permᴰ.cons refl (sort_by-perm xs))

  insert_by-IsSorted : (x : A) (ys : List A) → IsSorted ys → IsSorted (insert_by x ys)
  unfolding insert_by
  insert_by-IsSorted x [] h = tt
  insert_by-IsSorted x (y ∷ []) h = ground (arith, o.le_total (key x) (key y))
  insert_by-IsSorted x (y ∷ z ∷ zs) h =
      ground (arith, o.le_total (key x) (key y), insert_by-IsSorted x (z ∷ zs) h.1)

  pub sort_by-IsSorted : (xs : List A) → IsSorted (sort_by xs)
  unfolding sort_by
  sort_by-IsSorted [] = tt
  sort_by-IsSorted (x ∷ xs) = insert_by-IsSorted x (sort_by xs) (sort_by-IsSorted xs)

  -- Two insertions commute unless they are two values of one key.
  insert_by_comm :
      (x y : A) (zs : List A)
      → (key x ≡ key y → x ≡ y)
      → insert_by x (insert_by y zs) ≡ insert_by y (insert_by x zs)
  unfolding insert_by
  insert_by_comm x y [] same =
      ground (arith, o.le_total (key x) (key y), o.le_antisymm (key x) (key y), same)
  insert_by_comm x y (z ∷ zs) same = ground (
    arith,
    insert_by_comm x y zs same,
    o.le_total (key x) (key y),
    o.le_total (key y) (key x),
    o.le_antisymm (key x) (key y),
    o.le_trans (key x) (key y) (key z),
    o.le_trans (key y) (key x) (key z),
    same,
  )

  All-perm {ι} : (P : A → Type ι) {xs ys : List A} → Permᴰ xs ys → All P xs → All P ys
  All-perm P Permᴰ.nil h = tt
  All-perm P (Permᴰ.cons e p) h = (rw (← e) h.0, All-perm P p h.1)
  All-perm P (Permᴰ.swap e f) (hx, (hy, h)) = (rw (← f) hy, (rw (← e) hx, h))
  All-perm P (Permᴰ.trans p q) h = All-perm P q (All-perm P p h)

  sort_by-perm_All {ι} :
      (P : A → Type ι)
      → ((a b : A) → P a → P b → key a ≡ key b → a ≡ b)
      → {xs ys : List A} → Permᴰ xs ys
      → All P xs
      → sort_by xs ≡ sort_by ys
  unfolding sort_by
  sort_by-perm_All P inj Permᴰ.nil h = refl
  sort_by-perm_All P inj (Permᴰ.cons e p) h = ap₂ insert_by e (sort_by-perm_All P inj p h.1)
  sort_by-perm_All P inj (Permᴰ.swap {a = a} {b = b} {l = l} e f) (ha, (hb, h)) =
      insert_by_comm a b (sort_by l) (inj a b ha hb) ∙ ap₂ insert_by f (ap₂ insert_by e refl)
  sort_by-perm_All P inj (Permᴰ.trans p q) h =
      sort_by-perm_All P inj p h ∙ sort_by-perm_All P inj q (All-perm P p h)

  -- The result depends only on the collection, where a key identifies its element.
  pub sort_by-perm_eq :
      (xs ys : List A)
      → ((a b : A) → Memᴰ a xs → Memᴰ b xs → key a ≡ key b → a ≡ b)
      → Permᴰ xs ys
      → sort_by xs ≡ sort_by ys
  sort_by-perm_eq xs ys inj p =
      sort_by-perm_All (λ a. Memᴰ a xs) inj p (All-of_mem (λ a. Memᴰ a xs) xs (λ a m. m))

pub length-perm {ℓ} : {A : Type ℓ} {xs ys : List A} → Permᴰ xs ys → length xs ≡ length ys
length-perm Permᴰ.nil = refl
length-perm (Permᴰ.cons e p) = omega (arith, length-perm p)
length-perm (Permᴰ.swap e f) = refl
length-perm (Permᴰ.trans p q) = length-perm p ∙ length-perm q
