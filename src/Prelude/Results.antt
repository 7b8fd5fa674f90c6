-- ===== src/Prelude/Results.antt =====
-- A call that may raise: the class of the exception is kept, the message is not.
use mathlib.Core.Path.{◌≡◌, refl}
use mathlib.Core.Logic.{◌⊎◌, inl, inr}
use mathlib.Core.Bool.{Bool, true, false}

pub data PyError : Type 0 where
  value_error type_error attribute_error adapter_error overflow_error integrity_error : PyError

pub data Result {ℓ} (R : Type ℓ) : Type ℓ where
  ok : R → Result R
  raise : PyError → Result R

-- `if c: raise e`
abbrev pub raise_if : Bool → PyError → Result (Unit {0})
raise_if true e = raise e
raise_if false e = ok tt

infixl 5 ◌>>=◌
abbrev pub ◌>>=◌ {ℓ κ} : {R : Type ℓ} {S : Type κ} → Result R → (R → Result S) → Result S
raise e >>= next = raise e
ok x >>= next = next x

pub ok_injective {ℓ} : {R : Type ℓ} (x y : R) → ok x ≡ ok y → x ≡ y
ok_injective x y h = cc

pub Result-cases {ℓ} :
    {R : Type ℓ} (r : Result R) → ((x : R) × (r ≡ ok x)) ⊎ ((e : PyError) × (r ≡ raise e))
Result-cases (ok x) = inl (x, refl)
Result-cases (raise e) = inr (e, refl)

-- A chain of two calls that went through, taken apart.
pub >>=-eq-ok {ℓ κ} :
    {R : Type ℓ} {S : Type κ} (call : Result R) (next : R → Result S) {y : S}
    → (call >>= next) ≡ ok y
    → (x : R) × (call ≡ ok x) × (next x ≡ ok y)
>>=-eq-ok (raise e) next h = cc
>>=-eq-ok (ok x) next h = (x, refl, h)

infixl 5 ◌>>◌
abbrev pub ◌>>◌ {ℓ} : {S : Type ℓ} → Result (Unit {0}) → Result S → Result S
check >> rest = check >>= λ _. rest
