-- ===== src/Prelude/Members.antt =====
-- `any`, `all` and filters through the members of a list.
use mathlib.Core.Path.{◌≡◌, refl}
use mathlib.Core.Logic.{inl, inr}
use mathlib.Core.Bool.{Bool, true}
use mathlib.Core.List.{List, [], ◌∷◌, map, Memᴰ}
use native.Mathlib.Omega.{arith}
use alert_hub.Prelude.Tests.{Bool-cases}
use alert_hub.Prelude.Lists.{all, any, keep, nonempty}
use alert_hub.Prelude.Equality.{Eq, ◌==◌, contains, beq_self}

module _ {ℓ} {A : Type ℓ} where
  pub mem_all : (p : A → Bool) {x : A} (xs : List A) → all p xs ≡ true → Memᴰ x xs → p x ≡ true
  mem_all p [] h m = elim m [ ]
  mem_all p (y ∷ xs) h (Memᴰ.head e) = rw e (ground arith)
  mem_all p (y ∷ xs) h (Memᴰ.tail m) = mem_all p xs (ground arith) m

  pub all_of_mem :
      (p : A → Bool) (xs : List A) → ((x : A) → Memᴰ x xs → p x ≡ true) → all p xs ≡ true
  all_of_mem p [] h = refl
  all_of_mem p (x ∷ xs) h = rw (h x (Memᴰ.head refl)) (all_of_mem p xs (λ y m. h y (Memᴰ.tail m)))

  pub any_of_mem : (p : A → Bool) {x : A} (xs : List A) → Memᴰ x xs → p x ≡ true → any p xs ≡ true
  any_of_mem p [] m h = elim m [ ]
  any_of_mem p (y ∷ xs) (Memᴰ.head e) h = rw (← e, h)
  any_of_mem p (y ∷ xs) (Memᴰ.tail m) h = ground (arith, any_of_mem p xs m h)

  pub mem_of_any :
      (p : A → Bool) (xs : List A) → any p xs ≡ true → (x : A) × Memᴰ x xs × (p x ≡ true)
  mem_of_any p [] h = absurd (cc)
  mem_of_any p (x ∷ xs) h = elim (Bool-cases (p x)) [
    | inl here ↦ (x, Memᴰ.head refl, here)
    | inr not_here ↦ let (y, m, py) = mem_of_any p xs (ground arith) in (y, Memᴰ.tail m, py)
  ]

  pub mem_keep : (q : A → Bool) {x : A} (xs : List A) → Memᴰ x xs → q x ≡ true → Memᴰ x (keep q xs)
  mem_keep q [] m h = elim m [ ]
  mem_keep q (y ∷ xs) (Memᴰ.head e) h = rw (← e, h) (Memᴰ.head refl)
  mem_keep q (y ∷ xs) (Memᴰ.tail m) h = elim (Bool-cases (q y)) [
    | inl kept ↦ rw kept (Memᴰ.tail (mem_keep q xs m h))
    | inr dropped ↦ rw dropped (mem_keep q xs m h)
  ]

  pub all-keep : (p q : A → Bool) (xs : List A) → all p xs ≡ true → all p (keep q xs) ≡ true
  all-keep p q [] h = refl
  all-keep p q (x ∷ xs) h = ground (arith, all-keep p q xs)

  pub nonempty_of_mem : {x : A} (xs : List A) → Memᴰ x xs → nonempty xs ≡ true
  nonempty_of_mem [] m = elim m [ ]
  nonempty_of_mem (y ∷ xs) m = refl

  pub all-map {κ} :
      {B : Type κ} (p : B → Bool) (f : A → B) (xs : List A)
      → all p (map f xs) ≡ all (λ x. p (f x)) xs
  all-map p f [] = refl
  all-map p f (x ∷ xs) = rw (all-map p f xs)

  pub any-map {κ} :
      {B : Type κ} (p : B → Bool) (f : A → B) (xs : List A)
      → any p (map f xs) ≡ any (λ x. p (f x)) xs
  any-map p f [] = refl
  any-map p f (x ∷ xs) = rw (any-map p f xs)

  pub nonempty-map {κ} : {B : Type κ} (f : A → B) (xs : List A) → nonempty (map f xs) ≡ nonempty xs
  nonempty-map f [] = refl
  nonempty-map f (x ∷ xs) = refl

  pub contains-map {κ} :
      {B : Type κ} ⦃e : Eq B⦄ (f : A → B) {x : A} (xs : List A)
      → Memᴰ x xs
      → contains (f x) (map f xs) ≡ true
  contains-map f [] m = elim m [ ]
  contains-map f (y ∷ xs) (Memᴰ.head e) = rw (e, beq_self (f y))
  contains-map ⦃e⦄ f {x = x} (y ∷ xs) (Memᴰ.tail m) =
      ground (arith, contains-map ⦃e = e⦄ f {x = x} xs m)

  pub mem_of_contains-map {κ} :
      {B : Type κ} ⦃e : Eq B⦄ (f : A → B) (b : B) (xs : List A)
      → contains b (map f xs) ≡ true
      → (x : A) × Memᴰ x xs × (b ≡ f x)
  mem_of_contains-map f b [] h = absurd (cc)
  mem_of_contains-map ⦃e⦄ f b (x ∷ xs) h = elim (Bool-cases (b == f x)) [
    | inl here ↦ (x, Memᴰ.head refl, (e.beq_iff b (f x)).0 here)
    | inr not_here ↦
        let (y, m, p) = mem_of_contains-map f b xs (ground arith) in (y, Memᴰ.tail m, p)
  ]

  pub mem_of_mem-map {κ} :
      {B : Type κ} (f : A → B) {b : B} (xs : List A)
      → Memᴰ b (map f xs)
      → (x : A) × Memᴰ x xs × (b ≡ f x)
  mem_of_mem-map f [] m = elim m [ ]
  mem_of_mem-map f (x ∷ xs) (Memᴰ.head e) = (x, Memᴰ.head refl, e)
  mem_of_mem-map f (x ∷ xs) (Memᴰ.tail m) =
      let (y, n, p) = mem_of_mem-map f xs m in (y, Memᴰ.tail n, p)
