-- ===== src/Common/Result.antt =====
-- Errors that the program throws, as values, and the monad of code that may throw.
use Prim.Native.Nat.{ℕ}
use Prim.Native.String.{String}
use mathlib.Core.Path.{◌≡◌, refl, ap}
use mathlib.Core.Bool.{Bool, true, false}
use mathlib.Core.List.{List}

-- A thrown error: its class and its message; a message that quotes a code or a text keeps it
-- beside its fixed words. A LimitError names its limit.
pub data Error : Type 0 where
  type_error range_error plain_error : String → Error
  type_error_code : String → ℕ → Error
  type_error_text : String → List ℕ → Error
  type_error_named : String → String → Error
  limit_error : String → Error

-- `stuck` is no value of the program: a loop of the model ran out of fuel.
pub data Result {ℓ} (Value : Type ℓ) : Type ℓ where
  err : Error → Result Value
  stuck : Result Value
  ok : Value → Result Value

module _ {ℓ κ} {A : Type ℓ} {B : Type κ} where
  infixl 5 ◌>>=◌
  abbrev pub ◌>>=◌ : Result A → (A → Result B) → Result B
  stuck >>= next = stuck
  err thrown >>= next = err thrown
  ok value >>= next = next value

  -- Where a sequence returns, its first part returned and the rest returned on that value.
  pub bind-eq-ok :
      {y : B} (first : Result A) (next : A → Result B)
      → (first >>= next) ≡ ok y
      → (x : A) × (first ≡ ok x) × (next x ≡ ok y)
  bind-eq-ok stuck next e = cc
  bind-eq-ok (err thrown) next e = cc
  bind-eq-ok (ok value) next e = (value, refl, e)

module _ {ℓ} {A : Type ℓ} where
  value_or : A → Result A → A
  value_or other (ok value) = value
  value_or other _ = other

  pub ok_inj : {x y : A} → ok x ≡ ok y → x ≡ y
  unfolding value_or
  ok_inj {x} e = ap (value_or x) e

-- `if (bad) throw error;`
abbrev pub throw_if : Bool → Error → Result (Unit {0})
throw_if false thrown = ok tt
throw_if true thrown = err thrown

infixl 5 ◌>>◌
abbrev pub ◌>>◌ {ℓ} : {B : Type ℓ} → Result (Unit {0}) → Result B → Result B
check >> rest = check >>= λ _. rest

-- A second step was reached past a check.
pub throw_if_ok {ℓ} :
    {B : Type ℓ} (bad : Bool) (thrown : Error) (rest : Result B) {y : B}
    → (throw_if bad thrown >> rest) ≡ ok y
    → (bad ≡ false) × (rest ≡ ok y)
throw_if_ok true thrown rest h = absurd cc
throw_if_ok false thrown rest h = (refl, h)
