-- ===== src/Rewriter/Bounds.antt =====
-- What `Reader.u32` can return, and that `leb` is the shortest encoding that it reads.
use capnpc_wasm.Common.{
  ℕ, zero, suc, ◌+◌, ◌*◌, ◌/◌, ◌%◌, ◌^◌, ◌≤◌, ◌<◌, ◌≡◌, refl, Bool-cases, false, ◌&&◌, ◌⊎◌, inl,
  inr, arith, length, get_or, ltb, ◌==◌,
}
use capnpc_wasm.Common.Bits.{low_bits}
use capnpc_wasm.Common.Result.{ok}
use capnpc_wasm.Rewriter.Reader.{Reader, byte, u32_loop, u32, ◌>>=◌, throw}
use capnpc_wasm.Rewriter.Writer.{leb}
use capnpc_wasm.Rewriter.Writer.Encoding.{leb_last, leb_more}

-- The two ways in which a round of a successful `u32` goes.
abbrev Round : ℕ → ℕ → ℕ → Reader → ℕ → ℕ → ℕ → Type 0
Round rounds i value r p v q =
    (b : ℕ) × ((i == 4 && ltb 15 b) ≡ false)
    × (p < r.end)
    × (((v ≡ value + b % 128 * 2 ^ (7 * i)) × (q ≡ p + 1))
        ⊎ (u32_loop rounds (i + 1) (value + b % 128 * 2 ^ (7 * i)) r (p + 1) ≡ ok (v, q)))

Round-inv :
    (rounds i value : ℕ) (r : Reader) (p v q : ℕ)
    → u32_loop (suc rounds) i value r p ≡ ok (v, q)
    → Round rounds i value r p v q
unfolding u32_loop ◌>>=◌ byte
Round-inv rounds i value r p v q h =
    (get_or r.bytes p 0, ground arith, ground arith, ground (arith, low_bits (get_or r.bytes p 0)))

pub length-leb-le : (k v : ℕ) → v < 128 ^ suc k → length (leb v) ≤ suc k
length-leb-le zero v h = rw (leb_last v (omega arith)) (omega arith)
length-leb-le (suc k) v h = elim (Bool-cases (ltb v 128)) [
  | inl e ↦ rw (leb_last v (ground arith)) (omega arith)
  | inr e ↦ rw (leb_more v (ground arith)) (omega (arith, length-leb-le k (v / 128) (omega arith)))
]

-- What the rounds from `i` on give: a uint32, over one to five bytes in all, none of them beyond
-- the end, and no fewer than `leb` writes for the value.
record Given (i : ℕ) (r : Reader) (p v q : ℕ) : Type 0 where
  fits : v < 2 ^ 32
  forward : p < q
  inside : q ≤ r.end
  few : i + q ≤ p + 5
  shortest : length (leb v) + p ≤ i + q

Given-later : (i : ℕ) (r : Reader) (p v q : ℕ) → Given (i + 1) r (p + 1) v q → Given i r p v q
Given-later i r p v q g = omega arith

-- A round that ends the loop: its value is below 128 ^ (i + 1), and below 2 ^ 32.
Given-now :
    (i k : ℕ) (r : Reader) (p v q : ℕ)
    → i ≡ k
    → k ≤ 4
    → v < 128 ^ suc k
    → v < 2 ^ 32
    → p < r.end
    → q ≡ p + 1
    → Given i r p v q
Given-now i k r p v q e small fits word l eq =
    let short : length (leb v) ≤ suc k = length-leb-le k v fits in omega arith

loop4-Given :
    (value : ℕ) (r : Reader) (p v q : ℕ)
    → value < 2 ^ 28
    → u32_loop 1 4 value r p ≡ ok (v, q)
    → Given 4 r p v q
loop4-Given value r p v q h e =
    let (b, c, l, next) = Round-inv 0 4 value r p v q e in
    elim next [
      | inl (ev, eq) ↦
          let small : b ≤ 15 = ground arith in
          Given-now 4 4 r p v q refl (omega arith) (omega arith) (omega arith) l eq
      | inr e' ↦ absurd (unfold u32_loop throw in cc)
    ]

loop3-Given :
    (value : ℕ) (r : Reader) (p v q : ℕ)
    → value < 128 ^ 3
    → u32_loop 2 3 value r p ≡ ok (v, q)
    → Given 3 r p v q
loop3-Given value r p v q h e =
    let (b, c, l, next) = Round-inv 1 3 value r p v q e in
    elim next [
      | inl (ev, eq) ↦ Given-now 3 3 r p v q refl (omega arith) (omega arith) (omega arith) l eq
      | inr e' ↦ Given-later 3 r p v q (loop4-Given _ r (p + 1) v q (omega arith) e')
    ]

loop2-Given :
    (value : ℕ) (r : Reader) (p v q : ℕ)
    → value < 128 ^ 2
    → u32_loop 3 2 value r p ≡ ok (v, q)
    → Given 2 r p v q
loop2-Given value r p v q h e =
    let (b, c, l, next) = Round-inv 2 2 value r p v q e in
    elim next [
      | inl (ev, eq) ↦ Given-now 2 2 r p v q refl (omega arith) (omega arith) (omega arith) l eq
      | inr e' ↦ Given-later 2 r p v q (loop3-Given _ r (p + 1) v q (omega arith) e')
    ]

loop1-Given :
    (value : ℕ) (r : Reader) (p v q : ℕ)
    → value < 128 ^ 1
    → u32_loop 4 1 value r p ≡ ok (v, q)
    → Given 1 r p v q
loop1-Given value r p v q h e =
    let (b, c, l, next) = Round-inv 3 1 value r p v q e in
    elim next [
      | inl (ev, eq) ↦ Given-now 1 1 r p v q refl (omega arith) (omega arith) (omega arith) l eq
      | inr e' ↦ Given-later 1 r p v q (loop2-Given _ r (p + 1) v q (omega arith) e')
    ]

loop0-Given :
    (value : ℕ) (r : Reader) (p v q : ℕ)
    → value < 128 ^ 0
    → u32_loop 5 0 value r p ≡ ok (v, q)
    → Given 0 r p v q
loop0-Given value r p v q h e =
    let (b, c, l, next) = Round-inv 4 0 value r p v q e in
    elim next [
      | inl (ev, eq) ↦ Given-now 0 0 r p v q refl (omega arith) (omega arith) (omega arith) l eq
      | inr e' ↦ Given-later 0 r p v q (loop1-Given _ r (p + 1) v q (omega arith) e')
    ]

-- A successful `Reader.u32` returns a number below 2 ^ 32, consumes one to five bytes, none of
-- them beyond the reader's end, and no fewer than `leb` writes for that number.
pub u32_bounds :
    (r : Reader) (p v q : ℕ)
    → u32 r p ≡ ok (v, q)
    → (v < 2 ^ 32) × (p < q) × (q ≤ p + 5) × (q ≤ r.end) × (length (leb v) + p ≤ q)
unfolding u32
u32_bounds r p v q e =
    let g : Given 0 r p v q = loop0-Given 0 r p v q (omega arith) e in omega arith
