-- ===== src/Rewriter/RoundTrip.antt =====
-- LEB128 both ways: `Reader.u32` and `Reader.s32` against `leb`, `Writer.u32` and `Writer.s32`.
pub mod Signed
pub mod Written
use capnpc_wasm.Common.{
  ℕ, zero, suc, ◌+◌, ◌-◌, ◌*◌, ◌/◌, ◌%◌, ◌^◌, ◌≤◌, ◌<◌, bit_and, bit_or, ◌≡◌, refl, sym, ap, ◌∙◌,
  Bool-cases, true, false, ◌&&◌, ◌⊎◌, inl, inr, List, [], ◌∷◌, ◌++◌, arith, length, ltb, ◌==◌,
  if◌then◌else◌,
}
use capnpc_wasm.Common.Bits.{low_bits, top_bit}
use capnpc_wasm.Common.Result.{ok}
use capnpc_wasm.Rewriter.Reader.{Reader, byte, u32_loop, u32, ◌>>=◌}
use capnpc_wasm.Rewriter.Reader.Locality.{Ahead, byte-Ahead}
use capnpc_wasm.Rewriter.Writer.{leb}
use capnpc_wasm.Rewriter.Writer.Encoding.{leb_last, leb_more}

-- One round on a last byte, and on a byte with its top bit set over the group `g`.
last_round :
    (rounds i value p x : ℕ) (r : Reader)
    → byte r p ≡ ok (x, p + 1)
    → x < 128
    → (i == 4 && ltb 15 x) ≡ false
    → u32_loop (suc rounds) i value r p ≡ ok (value + x * 2 ^ (7 * i), p + 1)
unfolding u32_loop ◌>>=◌
last_round rounds i value p x r e h c =
    let top : (bit_and x 128 == 0) ≡ true = ground (arith, top_bit x) in
    let low : bit_and x 127 ≡ x = omega (arith, low_bits x) in ground arith

inner_round :
    (rounds i value p g : ℕ) (r : Reader)
    → byte r p ≡ ok (g + 128, p + 1)
    → g < 128
    → (i == 4 && ltb 15 (g + 128)) ≡ false
    → u32_loop (suc rounds) i value r p
      ≡ u32_loop rounds (i + 1) (value + g * 2 ^ (7 * i)) r (p + 1)
unfolding u32_loop ◌>>=◌
inner_round rounds i value p g r e h c =
    let top : (bit_and (g + 128) 128 == 0) ≡ false = ground (arith, top_bit (g + 128)) in
    let low : bit_and (g + 128) 127 ≡ g = omega (arith, low_bits (g + 128)) in ground arith

-- The rounds from `i` on read what `leb` wrote of a number that fits the bits left.
loop4-leb :
    (value v p : ℕ) (r : Reader)
    → v < 16
    → Ahead r p (leb v)
    → u32_loop 1 4 value r p ≡ ok (value + v * 2 ^ 28, p + length (leb v))
loop4-leb value v p r h a =
    let a' : Ahead r p (v ∷ []) = rw (leb_last v (omega arith)) at a in
    rw (leb_last v (omega arith))
      (last_round 0 4 value p v r (byte-Ahead r p v [] a') (omega arith) (ground arith))

module _ (rounds i value v p : ℕ) (r : Reader) (i_small : i < 4) (a : Ahead r p (leb v)) where
  short :
      v < 128 → u32_loop (suc rounds) i value r p ≡ ok (value + v * 2 ^ (7 * i), p + length (leb v))
  short h =
      let a' : Ahead r p (v ∷ []) = rw (leb_last v h) at a in
      rw (leb_last v h) (last_round rounds i value p v r (byte-Ahead r p v [] a') h (ground arith))

  long-Ahead : 128 ≤ v → Ahead r p ((v % 128 + 128) ∷ leb (v / 128))
  long-Ahead h = rw (leb_more v h) at a

  long :
      128 ≤ v
      → u32_loop (suc rounds) i value r p
        ≡ u32_loop rounds (i + 1) (value + v % 128 * 2 ^ (7 * i)) r (p + 1)
  long h =
      inner_round rounds i value p (v % 128) r (byte-Ahead r p _ (leb (v / 128)) (long-Ahead h))
        (omega arith) (ground arith)

loop3-leb :
    (value v p : ℕ) (r : Reader)
    → v < 2 ^ 11
    → Ahead r p (leb v)
    → u32_loop 2 3 value r p ≡ ok (value + v * 2 ^ 21, p + length (leb v))
loop3-leb value v p r h a = elim (Bool-cases (ltb v 128)) [
  | inl e ↦ short 1 3 value v p r (omega arith) a (ground arith)
  | inr e ↦
      let big : 128 ≤ v = ground arith in
      long 1 3 value v p r (omega arith) a big
      ∙ loop4-leb _ (v / 128) (p + 1) r (omega arith)
          (long-Ahead 1 3 value v p r (omega arith) a big).2
      ∙ rw (leb_more v big) (ground arith)
]

loop2-leb :
    (value v p : ℕ) (r : Reader)
    → v < 2 ^ 18
    → Ahead r p (leb v)
    → u32_loop 3 2 value r p ≡ ok (value + v * 2 ^ 14, p + length (leb v))
loop2-leb value v p r h a = elim (Bool-cases (ltb v 128)) [
  | inl e ↦ short 2 2 value v p r (omega arith) a (ground arith)
  | inr e ↦
      let big : 128 ≤ v = ground arith in
      long 2 2 value v p r (omega arith) a big
      ∙ loop3-leb _ (v / 128) (p + 1) r (omega arith)
          (long-Ahead 2 2 value v p r (omega arith) a big).2
      ∙ rw (leb_more v big) (ground arith)
]

loop1-leb :
    (value v p : ℕ) (r : Reader)
    → v < 2 ^ 25
    → Ahead r p (leb v)
    → u32_loop 4 1 value r p ≡ ok (value + v * 2 ^ 7, p + length (leb v))
loop1-leb value v p r h a = elim (Bool-cases (ltb v 128)) [
  | inl e ↦ short 3 1 value v p r (omega arith) a (ground arith)
  | inr e ↦
      let big : 128 ≤ v = ground arith in
      long 3 1 value v p r (omega arith) a big
      ∙ loop2-leb _ (v / 128) (p + 1) r (omega arith)
          (long-Ahead 3 1 value v p r (omega arith) a big).2
      ∙ rw (leb_more v big) (ground arith)
]

loop0-leb :
    (value v p : ℕ) (r : Reader)
    → v < 2 ^ 32
    → Ahead r p (leb v)
    → u32_loop 5 0 value r p ≡ ok (value + v * 2 ^ 0, p + length (leb v))
loop0-leb value v p r h a = elim (Bool-cases (ltb v 128)) [
  | inl e ↦ short 4 0 value v p r (omega arith) a (ground arith)
  | inr e ↦
      let big : 128 ≤ v = ground arith in
      long 4 0 value v p r (omega arith) a big
      ∙ loop1-leb _ (v / 128) (p + 1) r (omega arith)
          (long-Ahead 4 0 value v p r (omega arith) a big).2
      ∙ rw (leb_more v big) (ground arith)
]

-- Where `leb v` stands, `Reader.u32` reads `v` and stops right behind it, for every uint32 `v`.
pub u32-leb :
    (v p : ℕ) (r : Reader) → v < 2 ^ 32 → Ahead r p (leb v) → u32 r p ≡ ok (v, p + length (leb v))
unfolding u32
u32-leb v p r h a = loop0-leb 0 v p r h a ∙ ap (λ (t : ℕ). ok (t, p + length (leb v))) (omega arith)
