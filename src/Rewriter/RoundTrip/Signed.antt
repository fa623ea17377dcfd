-- ===== src/Rewriter/RoundTrip/Signed.antt =====
-- `Writer.s32` and `Reader.s32` on int32 bit patterns.
use capnpc_wasm.Common.{
  ℕ, zero, suc, ◌+◌, ◌-◌, ◌*◌, ◌%◌, ◌^◌, ◌≤◌, ◌<◌, bit_and, bit_or, ◌≡◌, sym, ap, ap₂, ◌∙◌, Bool,
  Bool-cases, true, false, not, ◌&&◌, ◌||◌, ◌⊎◌, inl, inr, List, [], ◌∷◌, append-nil, arith, length,
  ltb, leb, ◌==◌, if◌then◌else◌,
}
use capnpc_wasm.Common.Bits.{low_bits, top_bit, bit_and_64, set_top_bit, bit_or_disjoint}
use capnpc_wasm.Common.Result.{ok}
use capnpc_wasm.Rewriter.Reader.{Reader, byte, s32_loop, s32, ◌>>=◌}
use capnpc_wasm.Rewriter.Reader.Locality.{Ahead, byte-Ahead}
use capnpc_wasm.Rewriter.Writer
use capnpc_wasm.Rewriter.Writer.{Writer, sar_seven}
use capnpc_wasm.Rewriter.Writer.Content.{Appends, Appends-trans, byte-Appends}

-- The test with which the writer's loop ends, in plain arithmetic.
abbrev is_last : ℕ → Bool
is_last v = if ltb v (2 ^ 31) then ltb v 64 else leb (2 ^ 32 - 64) v

-- The bytes of an int32, over at most `fuel` rounds.
unfoldable pub sleb_loop : ℕ → ℕ → List ℕ
sleb_loop zero v = []
sleb_loop (suc fuel) v =
    let rest = sleb_loop fuel (sar_seven v) in
    if is_last v then v % 128 ∷ [] else (v % 128 + 128) ∷ rest

unfoldable pub sleb : ℕ → List ℕ
unfolding sleb_loop
sleb v = sleb_loop 5 v

sleb_last : (n v : ℕ) → is_last v ≡ true → sleb_loop (suc n) v ≡ v % 128 ∷ []
unfolding sleb_loop
sleb_last n v e = rw e

sleb_more :
    (n v : ℕ)
    → is_last v ≡ false
    → sleb_loop (suc n) v ≡ (v % 128 + 128) ∷ sleb_loop n (sar_seven v)
unfolding sleb_loop
sleb_more n v e = rw e

writer_test :
    (v : ℕ)
    → v < 2 ^ 32
    → ((sar_seven v == 0 && bit_and (bit_and v 127) 64 == 0)
        || (sar_seven v == (2 ^ 32 - 1) && not (bit_and (bit_and v 127) 64 == 0)))
      ≡ is_last v
writer_test v h = ground (arith, low_bits v, bit_and_64 (bit_and v 127))

sar_seven-lt : (v : ℕ) → v < 2 ^ 32 → sar_seven v < 2 ^ 32
sar_seven-lt v h = ground arith

s32_loop-Appends :
    (n v : ℕ) (w : Writer) → v < 2 ^ 32 → Appends (sleb_loop n v) w (Writer.s32_loop n v w)
unfolding sleb_loop Writer.s32_loop
s32_loop-Appends zero v w h = record { written = sym (append-nil _); grown = omega arith }
s32_loop-Appends (suc n) v w h = elim (Bool-cases (is_last v)) [
  | inl e ↦
      rw (writer_test v h, e, low_bits)
        (let b : v % 128 % 256 ≡ v % 128 = omega arith in rw b at (byte-Appends (v % 128) w))
  | inr e ↦
      rw (writer_test v h, e, low_bits, set_top_bit (v % 128) (omega arith))
        (let b : (v % 128 + 128) % 256 ≡ v % 128 + 128 = omega arith in
          Appends-trans _ (sleb_loop n (sar_seven v)) w _ _
            (rw b at (byte-Appends (v % 128 + 128) w))
            (s32_loop-Appends n (sar_seven v) _ (sar_seven-lt v h)))
]

-- The writer's `s32` writes `sleb`.
pub s32-Appends : (v : ℕ) (w : Writer) → v < 2 ^ 32 → Appends (sleb v) w (Writer.s32 v w)
unfolding sleb Writer.s32
s32-Appends v w h = s32_loop-Appends 5 v w h

-- What a last byte `x` of the round at `shift` makes of the value so far.
abbrev closed : ℕ → ℕ → ℕ → ℕ
closed shift value x =
    let value' = bit_or value (x * 2 ^ shift % 2 ^ 32) in
    if ltb (shift + 7) 32 && not (bit_and x 64 == 0)
    then bit_or value' (2 ^ 32 - 2 ^ (shift + 7))
    else value'

last_round :
    (rounds shift value p x : ℕ) (r : Reader)
    → byte r p ≡ ok (x, p + 1)
    → x < 128
    → shift < 35
    → s32_loop (suc rounds) shift value r p ≡ ok (closed shift value x, p + 1)
unfolding s32_loop ◌>>=◌
last_round rounds shift value p x r e h s =
    let top : (bit_and x 128 == 0) ≡ true = ground (arith, top_bit x) in
    let low : bit_and x 127 ≡ x = omega (arith, low_bits x) in ground arith

inner_round :
    (rounds shift value p g : ℕ) (r : Reader)
    → byte r p ≡ ok (g + 128, p + 1)
    → g < 128
    → shift < 35
    → s32_loop (suc rounds) shift value r p
      ≡ s32_loop rounds (shift + 7) (bit_or value (g * 2 ^ shift % 2 ^ 32)) r (p + 1)
unfolding s32_loop ◌>>=◌
inner_round rounds shift value p g r e h s =
    let top : (bit_and (g + 128) 128 == 0) ≡ false = ground (arith, top_bit (g + 128)) in
    let low : bit_and (g + 128) 127 ≡ g = omega (arith, low_bits (g + 128)) in ground arith

-- `v` is an int32 that needs `bits` bits, its sign among them.
abbrev Narrow : ℕ → ℕ → Type 0
Narrow half v = (v < half) ⊎ ((2 ^ 32 ≤ v + half) × (v < 2 ^ 32))

loop4-sleb :
    (value v p : ℕ) (r : Reader)
    → value < 2 ^ 28
    → Narrow 8 v
    → Ahead r p (sleb_loop 1 v)
    → s32_loop 2 28 value r p ≡ ok (value + v % 2 ^ 4 * 2 ^ 28, p + length (sleb_loop 1 v))
loop4-sleb value v p r h n a =
    let last : is_last v ≡ true = ground arith in
    let a' : Ahead r p (v % 128 ∷ []) = rw (sleb_last 0 v last) at a in
    rw (sleb_last 0 v last) (
      last_round 1 28 value p (v % 128) r (byte-Ahead r p _ [] a') (omega arith) (omega arith)
      ∙ ap (λ (t : ℕ). ok (t, p + 1))
          (let e : v % 128 * 2 ^ 28 % 2 ^ 32 ≡ v % 2 ^ 4 * 2 ^ 28 = omega arith in
            rw e (bit_or_disjoint 28 value (v % 2 ^ 4) h)))

closed3 :
    (value v : ℕ)
    → value < 2 ^ 21
    → v < 2 ^ 32
    → is_last v ≡ true
    → closed 21 value (v % 128) ≡ value + v % 2 ^ 11 * 2 ^ 21
closed3 value v h fits last =
    let sum = value + v % 128 * 2 ^ 21 in
    ground (
      arith,
      bit_and_64 (v % 128),
      bit_or_disjoint 21 value (v % 128),
      bit_or_disjoint 28 sum (2 ^ 4 - 1),
    )

loop3-sleb :
    (value v p : ℕ) (r : Reader)
    → value < 2 ^ 21
    → Narrow (2 ^ 10) v
    → Ahead r p (sleb_loop 2 v)
    → s32_loop 3 21 value r p ≡ ok (value + v % 2 ^ 11 * 2 ^ 21, p + length (sleb_loop 2 v))
loop3-sleb value v p r h n a = elim (Bool-cases (is_last v)) [
  | inl last ↦
      let a' : Ahead r p (v % 128 ∷ []) = rw (sleb_last 1 v last) at a in
      rw (sleb_last 1 v last) (
        last_round 2 21 value p (v % 128) r (byte-Ahead r p _ [] a') (omega arith) (omega arith)
        ∙ ap (λ (t : ℕ). ok (t, p + 1)) (closed3 value v h (ground arith) last))
  | inr more ↦
      let a' : Ahead r p ((v % 128 + 128) ∷ sleb_loop 1 (sar_seven v)) =
        rw (sleb_more 1 v more) at a in
      let value' = value + v % 128 * 2 ^ 21 in
      let low : bit_or value (v % 128 * 2 ^ 21 % 2 ^ 32) ≡ value' =
        ground (arith, bit_or_disjoint 21 value (v % 128)) in
      let e : value' + sar_seven v % 2 ^ 4 * 2 ^ 28 ≡ value + v % 2 ^ 11 * 2 ^ 21 = ground arith in
      rw (sleb_more 1 v more) (
        inner_round 2 21 value p (v % 128) r (byte-Ahead r p _ _ a') (omega arith) (omega arith)
        ∙ ap (λ t. s32_loop 2 28 t r (p + 1)) low
        ∙ loop4-sleb value' (sar_seven v) (p + 1) r (omega arith) (ground arith) a'.2
        ∙ ap₂ (λ (x y : ℕ). ok (x, y)) e (omega arith))
]

closed2 :
    (value v : ℕ)
    → value < 2 ^ 14
    → v < 2 ^ 32
    → is_last v ≡ true
    → closed 14 value (v % 128) ≡ value + v % 2 ^ 18 * 2 ^ 14
closed2 value v h fits last =
    let sum = value + v % 128 * 2 ^ 14 in
    ground (
      arith,
      bit_and_64 (v % 128),
      bit_or_disjoint 14 value (v % 128),
      bit_or_disjoint 21 sum (2 ^ 11 - 1),
    )

loop2-sleb :
    (value v p : ℕ) (r : Reader)
    → value < 2 ^ 14
    → Narrow (2 ^ 17) v
    → Ahead r p (sleb_loop 3 v)
    → s32_loop 4 14 value r p ≡ ok (value + v % 2 ^ 18 * 2 ^ 14, p + length (sleb_loop 3 v))
loop2-sleb value v p r h n a = elim (Bool-cases (is_last v)) [
  | inl last ↦
      let a' : Ahead r p (v % 128 ∷ []) = rw (sleb_last 2 v last) at a in
      rw (sleb_last 2 v last) (
        last_round 3 14 value p (v % 128) r (byte-Ahead r p _ [] a') (omega arith) (omega arith)
        ∙ ap (λ (t : ℕ). ok (t, p + 1)) (closed2 value v h (ground arith) last))
  | inr more ↦
      let a' : Ahead r p ((v % 128 + 128) ∷ sleb_loop 2 (sar_seven v)) =
        rw (sleb_more 2 v more) at a in
      let value' = value + v % 128 * 2 ^ 14 in
      let low : bit_or value (v % 128 * 2 ^ 14 % 2 ^ 32) ≡ value' =
        ground (arith, bit_or_disjoint 14 value (v % 128)) in
      let e : value' + sar_seven v % 2 ^ 11 * 2 ^ 21 ≡ value + v % 2 ^ 18 * 2 ^ 14 = ground arith in
      rw (sleb_more 2 v more) (
        inner_round 3 14 value p (v % 128) r (byte-Ahead r p _ _ a') (omega arith) (omega arith)
        ∙ ap (λ t. s32_loop 3 21 t r (p + 1)) low
        ∙ loop3-sleb value' (sar_seven v) (p + 1) r (omega arith) (ground arith) a'.2
        ∙ ap₂ (λ (x y : ℕ). ok (x, y)) e (omega arith))
]

closed1 :
    (value v : ℕ)
    → value < 2 ^ 7
    → v < 2 ^ 32
    → is_last v ≡ true
    → closed 7 value (v % 128) ≡ value + v % 2 ^ 25 * 2 ^ 7
closed1 value v h fits last =
    let sum = value + v % 128 * 2 ^ 7 in
    ground (
      arith,
      bit_and_64 (v % 128),
      bit_or_disjoint 7 value (v % 128),
      bit_or_disjoint 14 sum (2 ^ 18 - 1),
    )

loop1-sleb :
    (value v p : ℕ) (r : Reader)
    → value < 2 ^ 7
    → Narrow (2 ^ 24) v
    → Ahead r p (sleb_loop 4 v)
    → s32_loop 5 7 value r p ≡ ok (value + v % 2 ^ 25 * 2 ^ 7, p + length (sleb_loop 4 v))
loop1-sleb value v p r h n a = elim (Bool-cases (is_last v)) [
  | inl last ↦
      let a' : Ahead r p (v % 128 ∷ []) = rw (sleb_last 3 v last) at a in
      rw (sleb_last 3 v last) (
        last_round 4 7 value p (v % 128) r (byte-Ahead r p _ [] a') (omega arith) (omega arith)
        ∙ ap (λ (t : ℕ). ok (t, p + 1)) (closed1 value v h (ground arith) last))
  | inr more ↦
      let a' : Ahead r p ((v % 128 + 128) ∷ sleb_loop 3 (sar_seven v)) =
        rw (sleb_more 3 v more) at a in
      let value' = value + v % 128 * 2 ^ 7 in
      let low : bit_or value (v % 128 * 2 ^ 7 % 2 ^ 32) ≡ value' =
        ground (arith, bit_or_disjoint 7 value (v % 128)) in
      let e : value' + sar_seven v % 2 ^ 18 * 2 ^ 14 ≡ value + v % 2 ^ 25 * 2 ^ 7 = ground arith in
      rw (sleb_more 3 v more) (
        inner_round 4 7 value p (v % 128) r (byte-Ahead r p _ _ a') (omega arith) (omega arith)
        ∙ ap (λ t. s32_loop 4 14 t r (p + 1)) low
        ∙ loop2-sleb value' (sar_seven v) (p + 1) r (omega arith) (ground arith) a'.2
        ∙ ap₂ (λ (x y : ℕ). ok (x, y)) e (omega arith))
]

closed0 :
    (value v : ℕ)
    → value < 2 ^ 0
    → v < 2 ^ 32
    → is_last v ≡ true
    → closed 0 value (v % 128) ≡ value + v % 2 ^ 32 * 2 ^ 0
closed0 value v h fits last =
    let sum = value + v % 128 * 2 ^ 0 in
    ground (
      arith,
      bit_and_64 (v % 128),
      bit_or_disjoint 0 value (v % 128),
      bit_or_disjoint 7 sum (2 ^ 25 - 1),
    )

loop0-sleb :
    (value v p : ℕ) (r : Reader)
    → value < 2 ^ 0
    → Narrow (2 ^ 31) v
    → Ahead r p (sleb_loop 5 v)
    → s32_loop 6 0 value r p ≡ ok (value + v % 2 ^ 32 * 2 ^ 0, p + length (sleb_loop 5 v))
loop0-sleb value v p r h n a = elim (Bool-cases (is_last v)) [
  | inl last ↦
      let a' : Ahead r p (v % 128 ∷ []) = rw (sleb_last 4 v last) at a in
      rw (sleb_last 4 v last) (
        last_round 5 0 value p (v % 128) r (byte-Ahead r p _ [] a') (omega arith) (omega arith)
        ∙ ap (λ (t : ℕ). ok (t, p + 1)) (closed0 value v h (ground arith) last))
  | inr more ↦
      let a' : Ahead r p ((v % 128 + 128) ∷ sleb_loop 4 (sar_seven v)) =
        rw (sleb_more 4 v more) at a in
      let value' = value + v % 128 * 2 ^ 0 in
      let low : bit_or value (v % 128 * 2 ^ 0 % 2 ^ 32) ≡ value' =
        ground (arith, bit_or_disjoint 0 value (v % 128)) in
      let e : value' + sar_seven v % 2 ^ 25 * 2 ^ 7 ≡ value + v % 2 ^ 32 * 2 ^ 0 = ground arith in
      rw (sleb_more 4 v more) (
        inner_round 5 0 value p (v % 128) r (byte-Ahead r p _ _ a') (omega arith) (omega arith)
        ∙ ap (λ t. s32_loop 5 7 t r (p + 1)) low
        ∙ loop1-sleb value' (sar_seven v) (p + 1) r (omega arith) (ground arith) a'.2
        ∙ ap₂ (λ (x y : ℕ). ok (x, y)) e (omega arith))
]

-- Where the writer's bytes of an int32 stand, `Reader.s32` reads that int32, its sign included,
-- and stops right behind them.
pub s32-sleb :
    (v p : ℕ) (r : Reader) → v < 2 ^ 32 → Ahead r p (sleb v) → s32 r p ≡ ok (v, p + length (sleb v))
unfolding s32 sleb
s32-sleb v p r h a =
    loop0-sleb 0 v p r (omega arith) (ground arith) a
    ∙ ap (λ (t : ℕ). ok (t, p + length (sleb_loop 5 v))) (omega arith)
