-- ===== src/Rewriter/Writer/Encoding.antt =====
-- LEB128: what `leb` and the writer's `u32` emit, in plain arithmetic, and how much.
use capnpc_wasm.Common.{
  ℕ, zero, suc, ◌+◌, ◌/◌, ◌%◌, ◌^◌, ◌≤◌, ◌<◌, bit_and, ◌≡◌, ap, ap₂, Bool-cases, true, false, inl,
  inr, List, [], ◌∷◌, ◌++◌, arith, length, All, ltb, ◌==◌,
}
use capnpc_wasm.Common.Bits.{low_bits, set_top_bit, bit_or-zero}
use capnpc_wasm.Rewriter.Writer.Defs.{Writer, u32_loop, u32, leb_loop, leb, name}
use capnpc_wasm.Rewriter.Writer.Content.{Appends, Appends-trans, byte-Appends, bytes-Appends}

low_group : (v : ℕ) → bit_and (v % 2 ^ 32) 127 ≡ v % 128
low_group v = omega (arith, low_bits (v % 2 ^ 32))

-- Enough fuel gives one result.
leb_loop-fuel : (n m v : ℕ) → v < n → v < m → leb_loop n v ≡ leb_loop m v
unfolding leb_loop
leb_loop-fuel zero m v h k = absurd (omega arith)
leb_loop-fuel (suc n) zero v h k = absurd (omega arith)
leb_loop-fuel (suc n) (suc m) v h k = elim (Bool-cases (v / 128 == 0)) [
  | inl e ↦ rw e
  | inr e ↦ rw (e, leb_loop-fuel n m (v / 128) (ground arith) (ground arith))
]

pub leb_last : (v : ℕ) → v < 128 → leb v ≡ v ∷ []
unfolding leb
leb_last v h =
    let e : (v / 128 == 0) ≡ true = ground arith in
    rw (e, low_group, bit_or-zero) (ap (λ t. t ∷ []) (omega arith))

pub leb_more : (v : ℕ) → 128 ≤ v → leb v ≡ (v % 128 + 128) ∷ leb (v / 128)
unfolding leb
leb_more v h =
    let e : (v / 128 == 0) ≡ false = ground arith in
    rw (e, low_group)
      (ap₂ (λ x xs. x ∷ xs) (set_top_bit (v % 128) (omega arith))
        (leb_loop-fuel v (suc (v / 128)) (v / 128) (omega arith) (omega arith)))

leb_bytes_below : (n v : ℕ) → v < n → All (λ b. b < 256) (leb v)
leb_bytes_below zero v h = absurd (omega arith)
leb_bytes_below (suc n) v h = elim (Bool-cases (ltb v 128)) [
  | inl e ↦ rw (leb_last v (ground arith)) (ground arith)
  | inr e ↦ rw (leb_more v (ground arith)) (omega arith, leb_bytes_below n (v / 128) (ground arith))
]

-- Every element of an encoding is a byte.
pub leb-IsByte : (v : ℕ) → All (λ b. b < 256) (leb v)
leb-IsByte v = leb_bytes_below (suc v) v (omega arith)

pub length-leb_pos : (v : ℕ) → 0 < length (leb v)
length-leb_pos v = elim (Bool-cases (ltb v 128)) [
  | inl e ↦ rw (leb_last v (ground arith)) (omega arith)
  | inr e ↦ rw (leb_more v (ground arith)) (omega arith)
]

u32_loop-Appends : (n v : ℕ) (w : Writer) → v < n → Appends (leb_loop n v) w (u32_loop n v w)
unfolding leb_loop u32_loop
u32_loop-Appends zero v w h = absurd (omega arith)
u32_loop-Appends (suc n) v w h = elim (Bool-cases (v / 128 == 0)) [
  | inl e ↦
      rw (e, low_group, bit_or-zero)
        (let b : v % 128 % 256 ≡ v % 128 = omega arith in rw b at (byte-Appends (v % 128) w))
  | inr e ↦
      rw (e, low_group, set_top_bit (v % 128) (omega arith))
        (let b : (v % 128 + 128) % 256 ≡ v % 128 + 128 = omega arith in
          Appends-trans _ (leb_loop n (v / 128)) w _ _ (rw b at (byte-Appends (v % 128 + 128) w))
            (u32_loop-Appends n (v / 128) _ (ground arith)))
]

-- The writer's `u32` writes what `leb` returns.
pub u32-Appends : (v : ℕ) (w : Writer) → Appends (leb v) w (u32 v w)
unfolding leb u32
u32-Appends v w = u32_loop-Appends (suc v) v w (omega arith)

pub name-Appends :
    (encoded : List ℕ) (w : Writer) → Appends (leb (length encoded) ++ encoded) w (name encoded w)
unfolding name
name-Appends encoded w =
    Appends-trans _ encoded w _ _ (u32-Appends (length encoded) w) (bytes-Appends encoded _)
