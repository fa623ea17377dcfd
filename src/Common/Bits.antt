-- ===== src/Common/Bits.antt =====
-- What the bit operators of the program come to on the numbers it uses them on: a remainder, a
-- single digit, and a sum where no digits meet.
use Prim.Native.Nat.{
  ℕ, zero, suc, ◌+◌, ◌*◌, ◌/◌, ◌%◌, ◌^◌, ◌<◌, ◌≤◌, ◌-◌, min, max, bit_and, bit_or, digits,
  bit_and-bitwise, bit_or-bitwise,
}
use mathlib.Core.Path.{◌≡◌, refl, ap, ◌∙◌, sym}
use native.Mathlib.Omega.{arith}

sum : (m n : ℕ) → suc m + n ≡ suc (m + n)
sum m n = omega arith

-- A number has no more binary digits than its value, so any larger count gives the same result.
module _ (last : ℕ → ℕ) (digit : ℕ → ℕ → ℕ) where
  no_digits : (count y : ℕ) → digits last digit count 0 y ≡ last y
  no_digits zero y = refl
  no_digits (suc count) y = refl

  spare_digits :
      (spare count x y : ℕ)
      → x ≤ count
      → digits last digit (count + spare) x y ≡ digits last digit count x y
  spare_digits spare count zero y bound = no_digits (count + spare) y ∙ sym (no_digits count y)
  spare_digits spare zero (suc x) y bound = absurd (omega arith)
  spare_digits spare (suc count) (suc x) y bound =
      let rest = spare_digits spare count (suc x / 2) (y / 2) (omega arith) in
      ap (λ n. digits last digit n (suc x) y) (sum count spare)
      ∙ ap (λ t. t * 2 + digit (suc x % 2) (y % 2)) rest

  next_digits :
      (x y : ℕ) → digits last digit x (suc x / 2) y ≡ digits last digit (suc x / 2) (suc x / 2) y
  next_digits x y =
      ap (λ n. digits last digit n (suc x / 2) y) (omega arith)
      ∙ spare_digits (x - suc x / 2) (suc x / 2) (suc x / 2) y (omega arith)

pub bit_and_step : (x y : ℕ) → bit_and x y ≡ bit_and (x / 2) (y / 2) * 2 + min (x % 2) (y % 2)
bit_and_step zero y = omega (arith, bit_and-bitwise 0 (y / 2), bit_and-bitwise 0 y)
bit_and_step (suc x) y =
    let tail = next_digits (λ b. zero) min x (y / 2) in
    omega (arith, tail, bit_and-bitwise (suc x / 2) (y / 2), bit_and-bitwise (suc x) y)

pub bit_or_step : (x y : ℕ) → bit_or x y ≡ bit_or (x / 2) (y / 2) * 2 + max (x % 2) (y % 2)
bit_or_step zero y = omega (arith, bit_or-bitwise 0 (y / 2), bit_or-bitwise 0 y)
bit_or_step (suc x) y =
    let tail = next_digits (λ b. b) max x (y / 2) in
    omega (arith, tail, bit_or-bitwise (suc x / 2) (y / 2), bit_or-bitwise (suc x) y)

below-zero : (bound x : ℕ) → x < bound → (bit_and x 0 ≡ 0) × (bit_or x 0 ≡ x)
below-zero zero x lt = absurd (omega arith)
below-zero (suc bound) zero lt = (bit_and-bitwise 0 0, bit_or-bitwise 0 0)
below-zero (suc bound) (suc x) lt =
    let (rest_and, rest_or) = below-zero bound (suc x / 2) (omega arith) in
    (omega (arith, rest_and, bit_and_step (suc x) 0), omega (arith, rest_or, bit_or_step (suc x) 0))

pub bit_and-zero : (x : ℕ) → bit_and x 0 ≡ 0
bit_and-zero x = (below-zero (suc x) x (omega arith)).0

pub bit_or-zero : (x : ℕ) → bit_or x 0 ≡ x
bit_or-zero x = (below-zero (suc x) x (omega arith)).1

-- A mask that ends in 1 keeps the lowest digit, and one that ends in 0 drops it.
module _ (x mask : ℕ) where
  odd_mask : bit_and x (mask * 2 + 1) ≡ bit_and (x / 2) mask * 2 + x % 2
  odd_mask =
      let half : (mask * 2 + 1) / 2 ≡ mask = omega arith in
      omega (arith, bit_and_step x (mask * 2 + 1), ap (bit_and (x / 2)) half)

  even_mask : bit_and x (mask * 2) ≡ bit_and (x / 2) mask * 2
  even_mask =
      let half : mask * 2 / 2 ≡ mask = omega arith in
      omega (arith, bit_and_step x (mask * 2), ap (bit_and (x / 2)) half)

pub bit_and-one : (x : ℕ) → bit_and x 1 ≡ x % 2
bit_and-one x = omega (arith, bit_and-zero (x / 2), odd_mask x 0)

low_nibble : (x : ℕ) → bit_and x 15 ≡ x % 16
low_nibble x =
    omega
      (arith, bit_and-one (x / 2 / 2 / 2), odd_mask (x / 2 / 2) 1, odd_mask (x / 2) 3, odd_mask x 7)

-- `x & 127`
pub low_bits : (x : ℕ) → bit_and x 127 ≡ x % 128
low_bits x =
    omega (
      arith,
      low_nibble (x / 2 / 2 / 2),
      odd_mask (x / 2 / 2) 15,
      odd_mask (x / 2) 31,
      odd_mask x 63,
    )

third_bit : (x : ℕ) → bit_and x 8 ≡ x / 8 % 2 * 8
third_bit x = omega (
  arith,
  bit_and-one (x / 2 / 2 / 2),
  even_mask (x / 2 / 2) 1,
  even_mask (x / 2) 2,
  even_mask x 4,
)

-- `x & 64` and `x & 128`
pub bit_and_64 : (x : ℕ) → bit_and x 64 ≡ x / 64 % 2 * 64
bit_and_64 x = omega (
  arith,
  third_bit (x / 2 / 2 / 2),
  even_mask (x / 2 / 2) 8,
  even_mask (x / 2) 16,
  even_mask x 32,
)

pub top_bit : (x : ℕ) → bit_and x 128 ≡ x / 128 % 2 * 128
top_bit x = omega (arith, bit_and_64 (x / 2), even_mask x 64)

power : (n : ℕ) → 2 ^ suc n ≡ 2 * 2 ^ n
power n = omega arith

-- A shifted number and one below the shift have no digit in common.
pub bit_or_disjoint :
    (shift low high : ℕ) → low < 2 ^ shift → bit_or low (high * 2 ^ shift) ≡ low + high * 2 ^ shift
bit_or_disjoint zero zero high lt = omega (arith, bit_or-bitwise 0 (high * 2 ^ 0))
bit_or_disjoint zero (suc low) high lt = absurd (omega arith)
bit_or_disjoint (suc shift) low high lt =
    let double : high * 2 ^ suc shift ≡ high * 2 ^ shift * 2 =
      omega (arith, ap (λ (t : ℕ). high * t) (power shift)) in
    let half : high * 2 ^ suc shift / 2 ≡ high * 2 ^ shift = omega (arith, double) in
    let rest = bit_or_disjoint shift (low / 2) high (omega arith) in
    omega (arith, rest, ap (bit_or (low / 2)) half, bit_or_step low (high * 2 ^ suc shift), double)

-- `x | 128` for a group of seven bits.
pub set_top_bit : (x : ℕ) → x < 128 → bit_or x 128 ≡ x + 128
set_top_bit x lt = omega (arith, bit_or_disjoint 7 x 1)
