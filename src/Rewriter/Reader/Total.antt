-- ===== src/Rewriter/Reader/Total.antt =====
-- Reads that always end: with a value or with an error, never out of fuel.
use capnpc_wasm.Common.{
  ℕ, zero, suc, ◌+◌, ◌*◌, ◌≤◌, ◌≡◌, ◌≢◌, refl, Bool, true, false, arith, leb as le_b, if◌then◌else◌,
}
use capnpc_wasm.Common.Result.{Error, Result, ok, err, stuck}
use capnpc_wasm.Rewriter.Reader.{
  Reader, Reading, pure, throw, throw_if, position, end_position, subarray, ◌>>=◌, byte, u32_loop,
  u32, s32_loop, s32, leb, skip, name,
}

pub record Total {ℓ} {A : Type ℓ} (m : Reading A) : Type ℓ where
  pub ends : (r : Reader) (p : ℕ) → m r p ≢ stuck

module _ {ℓ} {A : Type ℓ} where
  pub Total-pure : (a : A) → Total (pure a)
  unfolding pure
  Total-pure a = record { ends = λ r p e. cc }

  pub Total-throw : (x : Error) → Total (throw {A = A} x)
  unfolding throw
  Total-throw x = record { ends = λ r p e. cc }

  pub Total-if : (b : Bool) (m n : Reading A) → Total m → Total n → Total (if b then m else n)
  Total-if true m n km kn = km
  Total-if false m n km kn = kn

pub Total-throw_if : (bad : Bool) (x : Error) → Total (throw_if bad x)
unfolding throw_if
Total-throw_if true x = record { ends = λ r p e. cc }
Total-throw_if false x = record { ends = λ r p e. cc }

pub Total-position : Total position
unfolding position
Total-position = record { ends = λ r p e. cc }

pub Total-end_position : Total end_position
unfolding end_position
Total-end_position = record { ends = λ r p e. cc }

pub Total-subarray : (a b : ℕ) → Total (subarray a b)
unfolding subarray
Total-subarray a b = record { ends = λ r p e. cc }

pub Total-byte : Total byte
unfolding byte
Total-byte = record { ends = λ r p e. ground arith }

pub Total-skip : (count : ℕ) → Total (skip count)
unfolding skip
Total-skip count = record { ends = λ r p e. ground arith }

module _ {ℓ κ} {A : Type ℓ} {B : Type κ} (m : Reading A) (f : A → Reading B) where
  pub Total-bind : Total m → ((a : A) → Total (f a)) → Total (m >>= f)
  unfolding ◌>>=◌
  Total-bind km kf = record { ends = λ r p. go r (m r p) (km.ends r p) }
    where
      go :
          (r : Reader) (x : Result (A × ℕ))
          → x ≢ stuck
          → ◌≢◌ {A = Result (B × ℕ)}
              (elim x [ ok (a, q) ↦ f a r q | err e ↦ err e | stuck ↦ stuck ])
              stuck
      go r (ok c) h = (kf c.0).ends r c.1
      go r (err e) h = λ k. cc
      go r stuck h = absurd (h refl)

pub ruleset total_rules = (
  Total-pure, Total-throw, Total-if, Total-throw_if, Total-position, Total-end_position,
  Total-subarray, Total-byte, Total-skip, Total-bind,
)

Total-u32_loop : (rounds i value : ℕ) → Total (u32_loop rounds i value)
unfolding u32_loop
Total-u32_loop zero i value = search total_rules
Total-u32_loop (suc rounds) i value = search (total_rules, Total-u32_loop rounds)

pub Total-u32 : Total u32
unfolding u32
Total-u32 = Total-u32_loop 5 0 0

pub Total-leb : (limit : ℕ) → Total (leb limit)
unfolding leb
Total-leb zero = search total_rules
Total-leb (suc limit) =
    Total-bind byte _ Total-byte λ b. Total-if _ _ _ (Total-pure tt) (Total-leb limit)

pub Total-name : Total name
unfolding name
Total-name = search (total_rules, Total-u32)

-- `n` rounds left at a shift of 7 * (6 - n): the last of them finds the shift at 35.
Total-s32_loop : (n shift value : ℕ) → 35 ≤ shift + 7 * n → Total (s32_loop (suc n) shift value)
unfolding s32_loop
Total-s32_loop zero shift value h =
    let e : le_b 35 shift ≡ true = ground arith in
    unfold ◌>>=◌ in rw e (record { ends = λ r p k. cc })
Total-s32_loop (suc n) shift value h = Total-bind _ _ (Total-throw_if _ _) λ _.
    Total-bind _ _ Total-byte
      λ b. Total-if _ _ _ (Total-s32_loop n (shift + 7) _ (omega arith)) (Total-pure _)

pub Total-s32 : Total s32
unfolding s32
Total-s32 = Total-s32_loop 5 0 0 (omega arith)
