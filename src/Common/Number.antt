-- ===== src/Common/Number.antt =====
-- The numbers of the program where it checks what a caller passed: a double as an exact fraction.
use Prim.Native.Nat.{ℕ, suc, ◌*◌, ◌/◌, ◌%◌, ◌^◌}
use mathlib.Core.Bool.{Bool, true, false, not, ◌&&◌, ◌||◌}
use capnpc_wasm.Common.Tests.{ltb, ◌==◌}

-- `finite negative n d` is n / (d + 1), or its negation.
pub data Number : Type 0 where
  nan : Number
  infinite : Bool → Number
  finite : Bool → ℕ → ℕ → Number

-- `Number.isFinite(x)`
abbrev pub is_finite : Number → Bool
is_finite (finite negative n d) = true
is_finite _ = false

-- `x < 0` and `x <= 0`, which hold of no NaN; a negative zero is a zero.
abbrev pub lt_zero : Number → Bool
lt_zero nan = false
lt_zero (infinite negative) = negative
lt_zero (finite negative n d) = negative && not (n == 0)

abbrev pub le_zero : Number → Bool
le_zero nan = false
le_zero (infinite negative) = negative
le_zero (finite negative n d) = negative || n == 0

-- `x > k` for a natural number k.
abbrev pub gt : Number → ℕ → Bool
gt nan k = false
gt (infinite negative) k = not negative
gt (finite negative n d) k = not negative && ltb (k * suc d) n

-- `Number.isSafeInteger(x)`
abbrev pub is_safe_integer : Number → Bool
is_safe_integer (finite negative n d) = n % suc d == 0 && ltb (n / suc d) (2 ^ 53)
is_safe_integer _ = false

-- The natural number that a number is, where it is one.
abbrev pub whole_part : Number → ℕ
whole_part (finite negative n d) = n / suc d
whole_part _ = 0
