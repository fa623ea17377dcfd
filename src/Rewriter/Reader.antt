-- ===== src/Rewriter/Reader.antt =====
-- `class Reader` of sdk/typescript/rewriter.ts: bounds-checked reads over one section or body.
pub mod Locality
pub mod Total
use capnpc_wasm.Common.{
  ℕ, zero, suc, ◌+◌, ◌-◌, ◌*◌, ◌/◌, ◌%◌, ◌^◌, ◌≤◌, ◌<◌, bit_and, bit_or, String, ◌≡◌, refl, Bool,
  true, false, not, ◌&&◌, ◌||◌, List, [], ◌∷◌, ◌++◌, arith, ltb, leb as le_b, ◌==◌, if◌then◌else◌,
  get_or, slice, length,
}
use capnpc_wasm.Common.Result.{Error, Result, ok, err, stuck, type_error}

-- The readonly fields of the class; `position` is the state that its methods thread.
pub record Reader : Type 0 where
  pub bytes : List ℕ
  pub end : ℕ

-- A method of the class, or code that calls its methods: what it returns and the new position.
abbrev pub Reading {ℓ} : Type ℓ → Type ℓ
Reading A = Reader → ℕ → Result (A × ℕ)

module _ {ℓ} {A : Type ℓ} where
  unfoldable pub pure : A → Reading A
  pure a r p = ok (a, p)

  unfoldable pub throw : Error → Reading A
  throw e r p = err e

-- `if (bad) throw error;`
unfoldable pub throw_if : Bool → Error → Reading (Unit {0})
throw_if bad e r p = if bad then err e else ok (tt, p)

unfoldable pub position : Reading ℕ
position r p = ok (p, p)

unfoldable pub end_position : Reading ℕ
end_position r p = ok (r.end, p)

-- `bytes.subarray(start, end)` on the bytes of the reader.
unfoldable pub subarray : ℕ → ℕ → Reading (List ℕ)
subarray start end r p = ok (slice start end r.bytes, p)

-- Opening this opens the actions above too.
infixl 5 ◌>>=◌ ◌>>◌
unfoldable pub ◌>>=◌ {ℓ κ} : {A : Type ℓ} {B : Type κ} → Reading A → (A → Reading B) → Reading B
unfolding pure throw throw_if position end_position subarray
◌>>=◌ m f r p = elim (m r p) [ ok (a, q) ↦ f a r q | err e ↦ err e | stuck ↦ stuck ]

abbrev pub ◌>>◌ {ℓ} : {B : Type ℓ} → Reading (Unit {0}) → Reading B → Reading B
m >> k = m >>= λ _. k

-- The index is below `end`, and `end` is at most the length of the bytes, wherever this is read.
unfoldable pub byte : Reading ℕ
byte r p =
    if le_b r.end p
    then err (type_error "truncated Wasm section")
    else ok (get_or r.bytes p 0, p + 1)

-- The rounds left of `for (let i = 0; i < 5; i++)`.
unfoldable pub u32_loop : ℕ → ℕ → ℕ → Reading ℕ
u32_loop zero i value = throw (type_error "invalid Wasm u32 encoding")
u32_loop (suc rounds) i value = do
  b ← byte
  throw_if (i == 4 && ltb 15 b) (type_error "invalid Wasm u32 encoding")
  let value' = value + bit_and b 127 * 2 ^ (7 * i)
  if bit_and b 128 == 0 then pure value' else u32_loop rounds (i + 1) value'

unfoldable pub u32 : Reading ℕ
unfolding u32_loop byte
u32 = u32_loop 5 0 0

-- An int32 is its bit pattern, below 2 ^ 32. `-1 << shift` for a shift below 32.
abbrev pub minus_one_shl : ℕ → ℕ
minus_one_shl shift = 2 ^ 32 - 2 ^ shift

unfoldable pub out_of_fuel {ℓ} : {A : Type ℓ} → Reading A
out_of_fuel r p = stuck

-- Six rounds are enough: the sixth finds `shift` at 35 and throws.
unfoldable pub s32_loop : ℕ → ℕ → ℕ → Reading ℕ
s32_loop zero shift value = out_of_fuel
s32_loop (suc rounds) shift value = do
  throw_if (le_b 35 shift) (type_error "invalid Wasm integer encoding")
  b ← byte
  let value' = bit_or value (bit_and b 127 * 2 ^ shift % 2 ^ 32)
  let shift' = shift + 7
  if not (bit_and b 128 == 0)
      then s32_loop rounds shift' value'
      else pure (
          if ltb shift' 32 && not (bit_and b 64 == 0)
          then bit_or value' (minus_one_shl shift')
          else value')

unfoldable pub s32 : Reading ℕ
unfolding s32_loop byte
s32 = s32_loop 6 0 0

-- Skips a LEB128 integer of at most `limit` bytes.
unfoldable pub leb : ℕ → Reading (Unit {0})
leb zero = throw (type_error "invalid Wasm integer encoding")
leb (suc limit) = do b ← byte; if bit_and b 128 == 0 then pure tt else leb limit

unfoldable pub skip : ℕ → Reading (Unit {0})
skip count r p =
    if ltb (r.end - p) count then err (type_error "truncated Wasm section") else ok (tt, p + count)

-- The bytes of a name; `decodes_to` is the comparison of the decoded text.
unfoldable pub name : Reading (List ℕ)
unfolding u32 skip
name = do len ← u32; start ← position; skip len; end ← position; subarray start end
