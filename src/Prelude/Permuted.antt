-- ===== src/Prelude/Permuted.antt =====
-- Filters and members of permuted lists.
use mathlib.Core.Path.{◌≡◌, ap, refl, ◌∙◌}
use mathlib.Core.Bool.{Bool, true, false}
use mathlib.Core.Logic.{◌⊎◌, inl, inr}
use mathlib.Core.List.{List, [], ◌∷◌, ◌++◌, map, Memᴰ, Permᴰ}
use mathlib.Core.List.Permᴰ
use alert_hub.Prelude.Tests.{if◌then◌else◌}
use alert_hub.Prelude.Lists.{keep}

keep_cons :
    {A : Type 0} (b : Bool) (x : A) {xs ys : List A}
    → Permᴰ xs ys
    → Permᴰ (if b then x ∷ xs else xs) (if b then x ∷ ys else ys)
keep_cons true x q = Permᴰ.cons refl q
keep_cons false x q = q

keep_swap :
    {A : Type 0} (b c : Bool) (x y : A) (xs : List A)
    → Permᴰ
        (if b then x ∷ (if c then y ∷ xs else xs) else (if c then y ∷ xs else xs))
        (if c then y ∷ (if b then x ∷ xs else xs) else (if b then x ∷ xs else xs))
keep_swap true true x y xs = Permᴰ.swap refl refl
keep_swap true false x y xs = Permᴰ.refl _
keep_swap false true x y xs = Permᴰ.refl _
keep_swap false false x y xs = Permᴰ.refl _

pub keep-perm :
    {A : Type 0} (p : A → Bool) {xs ys : List A} → Permᴰ xs ys → Permᴰ (keep p xs) (keep p ys)
keep-perm p Permᴰ.nil = Permᴰ.nil
keep-perm p (Permᴰ.cons {b = b} e q) = rw e (keep_cons (p b) b (keep-perm p q))
keep-perm p (Permᴰ.swap {a = a} {b = b} {l = l} e f) =
    rw (← e, ← f) (keep_swap (p a) (p b) a b (keep p l))
keep-perm p (Permᴰ.trans q r) = Permᴰ.trans (keep-perm p q) (keep-perm p r)

pub mem_perm : {A : Type 0} {x : A} {xs ys : List A} → Permᴰ xs ys → Memᴰ x xs → Memᴰ x ys
mem_perm Permᴰ.nil m = m
mem_perm (Permᴰ.cons e q) (Memᴰ.head h) = Memᴰ.head (h ∙ e)
mem_perm (Permᴰ.cons e q) (Memᴰ.tail m) = Memᴰ.tail (mem_perm q m)
mem_perm (Permᴰ.swap e f) (Memᴰ.head h) = Memᴰ.tail (Memᴰ.head (h ∙ e))
mem_perm (Permᴰ.swap e f) (Memᴰ.tail (Memᴰ.head h)) = Memᴰ.head (h ∙ f)
mem_perm (Permᴰ.swap e f) (Memᴰ.tail (Memᴰ.tail m)) = Memᴰ.tail (Memᴰ.tail m)
mem_perm (Permᴰ.trans q r) m = mem_perm r (mem_perm q m)

mem_of_cons :
    {A : Type 0} (b : Bool) {x y : A} (xs ys : List A)
    → (Memᴰ x xs → Memᴰ x ys)
    → Memᴰ x (if b then y ∷ xs else xs)
    → Memᴰ x (y ∷ ys)
mem_of_cons true xs ys sub (Memᴰ.head e) = Memᴰ.head e
mem_of_cons true xs ys sub (Memᴰ.tail m) = Memᴰ.tail (sub m)
mem_of_cons false xs ys sub m = Memᴰ.tail (sub m)

pub mem_of_keep : {A : Type 0} (p : A → Bool) {x : A} (xs : List A) → Memᴰ x (keep p xs) → Memᴰ x xs
mem_of_keep p [] m = elim m [ ]
mem_of_keep p (y ∷ xs) m = mem_of_cons (p y) (keep p xs) xs (mem_of_keep p xs) m

true_of_if :
    {A : Type 0} (p : A → Bool) (b : Bool) {x y : A} (xs : List A)
    → p y ≡ b
    → (Memᴰ x xs → p x ≡ true)
    → Memᴰ x (if b then y ∷ xs else xs)
    → p x ≡ true
true_of_if p true xs h rest (Memᴰ.head e) = ap p e ∙ h
true_of_if p true xs h rest (Memᴰ.tail m) = rest m
true_of_if p false xs h rest m = rest m

pub true_of_keep :
    {A : Type 0} (p : A → Bool) {x : A} (xs : List A) → Memᴰ x (keep p xs) → p x ≡ true
true_of_keep p [] m = elim m [ ]
true_of_keep p (y ∷ xs) m = true_of_if p (p y) (keep p xs) refl (true_of_keep p xs) m

pub mem-append_left :
    {A : Type 0} {x : A} {xs : List A} (ys : List A) → Memᴰ x xs → Memᴰ x (xs ++ ys)
mem-append_left ys (Memᴰ.head e) = Memᴰ.head e
mem-append_left ys (Memᴰ.tail m) = Memᴰ.tail (mem-append_left ys m)

pub mem-append_right :
    {A : Type 0} {x : A} (xs : List A) {ys : List A} → Memᴰ x ys → Memᴰ x (xs ++ ys)
mem-append_right [] m = m
mem-append_right (y ∷ xs) m = Memᴰ.tail (mem-append_right xs m)

pub mem_of_append :
    {A : Type 0} {x : A} (xs : List A) {ys : List A} → Memᴰ x (xs ++ ys) → Memᴰ x xs ⊎ Memᴰ x ys
mem_of_append [] m = inr m
mem_of_append (y ∷ xs) (Memᴰ.head e) = inl (Memᴰ.head e)
mem_of_append (y ∷ xs) (Memᴰ.tail m) = elim (mem_of_append xs m) [
  | inl l ↦ inl (Memᴰ.tail l)
  | inr r ↦ inr r
]

pub mem-map :
    {A : Type 0} {B : Type 0} (f : A → B) {x : A} {xs : List A} → Memᴰ x xs → Memᴰ (f x) (map f xs)
mem-map f (Memᴰ.head e) = Memᴰ.head (ap f e)
mem-map f (Memᴰ.tail m) = Memᴰ.tail (mem-map f m)
