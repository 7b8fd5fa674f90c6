-- ===== src/Prelude/Order.antt =====
-- Total orders as an interface: numbers, texts by code point, and pairs, as Python compares them.
use Prim.Native.Nat.{ℕ}
use mathlib.Core.Path.{◌≡◌, refl}
use mathlib.Core.Bool.{Bool, true, false, ◌&&◌, ◌||◌}
use mathlib.Core.List.{[], ◌∷◌}
use native.Mathlib.Omega.{arith}
use alert_hub.Prelude.Tests.{ltb, leb, nat_beq, if◌then◌else◌}
use alert_hub.Prelude.Equality.{Text}

pub record Order {ℓ} (A : Type ℓ) : Type ℓ where
  pub le : A → A → Bool
  pub le_total : (a b : A) → le a b ≡ false → le b a ≡ true
  pub le_trans : (a b c : A) → le a b ≡ true → le b c ≡ true → le a c ≡ true
  pub le_antisymm : (a b : A) → le a b ≡ true → le b a ≡ true → a ≡ b

pub leb_total : (a b : ℕ) → leb a b ≡ false → leb b a ≡ true
leb_total a b h = ground arith

pub leb_trans : (a b c : ℕ) → leb a b ≡ true → leb b c ≡ true → leb a c ≡ true
leb_trans a b c h k = ground arith

pub leb_antisymm : (a b : ℕ) → leb a b ≡ true → leb b a ≡ true → a ≡ b
leb_antisymm a b h k = ground arith

abbrev pub nat_order : Order ℕ
nat_order = record {
  le = leb;
  le_total = leb_total;
  le_trans = leb_trans;
  le_antisymm = leb_antisymm;
}

unfoldable pub text_le : Text → Text → Bool
text_le [] bs = true
text_le (a ∷ as') [] = false
text_le (a ∷ as') (b ∷ bs) = ltb a b || (nat_beq a b && text_le as' bs)

pub text_le_total : (a b : Text) → text_le a b ≡ false → text_le b a ≡ true
unfolding text_le
text_le_total [] b h = cc
text_le_total (a ∷ as') [] h = refl
text_le_total (a ∷ as') (b ∷ bs) h = ground (arith, text_le_total as' bs)

pub text_le_trans : (a b c : Text) → text_le a b ≡ true → text_le b c ≡ true → text_le a c ≡ true
unfolding text_le
text_le_trans [] b c h k = refl
text_le_trans (a ∷ as') [] c h k = cc
text_le_trans (a ∷ as') (b ∷ bs) [] h k = cc
text_le_trans (a ∷ as') (b ∷ bs) (c ∷ cs) h k = ground (arith, text_le_trans as' bs cs)

pub text_le_antisymm : (a b : Text) → text_le a b ≡ true → text_le b a ≡ true → a ≡ b
unfolding text_le
text_le_antisymm [] [] h k = refl
text_le_antisymm [] (b ∷ bs) h k = cc
text_le_antisymm (a ∷ as') [] h k = cc
text_le_antisymm (a ∷ as') (b ∷ bs) h k = ground (arith, text_le_antisymm as' bs)

abbrev pub text_order : Order Text
text_order = record {
  le = text_le;
  le_total = text_le_total;
  le_trans = text_le_trans;
  le_antisymm = text_le_antisymm;
}

-- `a < b`
abbrev pub lt {ℓ} : {A : Type ℓ} → Order A → A → A → Bool
lt o a b = if o.le b a then false else true

-- Python compares tuples from the left.
module _ {ℓ} {A B : Type ℓ} (p : Order A) (q : Order B) where
  abbrev pub pair_le : A × B → A × B → Bool
  pair_le x y = if p.le y.0 x.0 then p.le x.0 y.0 && q.le x.1 y.1 else true

  pub pair_le_total : (x y : A × B) → pair_le x y ≡ false → pair_le y x ≡ true
  pair_le_total x y h = ground (arith, p.le_total x.0 y.0, p.le_total y.0 x.0, q.le_total x.1 y.1)

  pub pair_le_trans : (x y z : A × B) → pair_le x y ≡ true → pair_le y z ≡ true → pair_le x z ≡ true
  pair_le_trans x y z h k = ground (
    arith,
    p.le_total x.0 y.0,
    p.le_total y.0 z.0,
    p.le_total y.0 x.0,
    p.le_total z.0 y.0,
    p.le_trans x.0 y.0 z.0,
    p.le_trans z.0 x.0 y.0,
    p.le_trans y.0 z.0 x.0,
    q.le_trans x.1 y.1 z.1,
  )

  pub pair_le_antisymm : (x y : A × B) → pair_le x y ≡ true → pair_le y x ≡ true → x ≡ y
  pair_le_antisymm x y h k =
      ground (
        arith,
        p.le_total x.0 y.0,
        p.le_total y.0 x.0,
        p.le_antisymm x.0 y.0,
        q.le_antisymm x.1 y.1,
      )

  abbrev pub pair_order : Order (A × B)
  pair_order = record {
    le = pair_le;
    le_total = pair_le_total;
    le_trans = pair_le_trans;
    le_antisymm = pair_le_antisymm;
  }

-- `reverse=True`
module _ {ℓ} {A : Type ℓ} (o : Order A) where
  pub flip_total : (a b : A) → o.le b a ≡ false → o.le a b ≡ true
  flip_total a b h = o.le_total b a h

  pub flip_trans : (a b c : A) → o.le b a ≡ true → o.le c b ≡ true → o.le c a ≡ true
  flip_trans a b c h k = o.le_trans c b a k h

  pub flip_antisymm : (a b : A) → o.le b a ≡ true → o.le a b ≡ true → a ≡ b
  flip_antisymm a b h k = o.le_antisymm a b k h

  abbrev pub flip : Order A
  flip = record {
    le = λ a b. o.le b a;
    le_total = flip_total;
    le_trans = flip_trans;
    le_antisymm = flip_antisymm;
  }
