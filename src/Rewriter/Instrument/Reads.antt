-- ===== src/Rewriter/Instrument/Reads.antt =====
-- The reads that the inner functions of `instrument` in sdk/typescript/rewriter.ts call, each inside
-- its reader.
use capnpc_wasm.Common.{ℕ, ◌≤◌, ◌≡◌, ◌≢◌, refl, Bool, true, false, arith, if◌then◌else◌}
use capnpc_wasm.Common.Result.{Error, Result, ok, err, stuck}
use capnpc_wasm.Rewriter.Reader.{
  Reader, Reading, pure, throw_if, position, end_position, subarray, ◌>>=◌, byte, u32, s32, leb,
  skip, name,
}
use capnpc_wasm.Rewriter.Reader.Locality.{bind_inv, Reads-s32}
use capnpc_wasm.Rewriter.Reader.Total.{Total-s32}
use capnpc_wasm.Rewriter.Types.{
  value_type, heap_type, block_type, memory_argument, table_type, simd_immediates,
}
use capnpc_wasm.Rewriter.Types.Closed.{
  IsParser-byte, IsParser-u32, IsParser-leb, IsParser-skip, IsParser-heap_type, IsParser-value_type,
  IsParser-block_type, IsParser-memory_argument, IsParser-table_type, IsParser-simd_immediates,
}
use capnpc_wasm.Rewriter.Memory.{bounded_memory}
use capnpc_wasm.Rewriter.Instrument.Triple.{IsWithin, IsParser-IsWithin}
use capnpc_wasm.Rewriter.Instrument.Sections.{next_is}

module _ {A B : Type 0} (m : Reading A) (f : A → Reading B) where
  IsWithin-bind : IsWithin m → ((a : A) → IsWithin (f a)) → IsWithin (m >>= f)
  IsWithin-bind km kf = record {
    ends = λ r p h. unfold ◌>>=◌ in go r p h (m r p) (km.ends r p h) (λ a q. km.bounds r p a q h);
    bounds = λ r p b q h e.
        let x = bind_inv m f r p e in
        let i = km.bounds r p x.0.0 x.0.1 h x.1 in
        let j = (kf x.0.0).bounds r x.0.1 b q i.1 x.2 in (omega (arith, i.0, j.0), j.1);
  }
    where
      go :
          (r : Reader) (p : ℕ)
          → p ≤ r.end
          → (x : Result (A × ℕ)) → x ≢ stuck
          → ((a : A) (q : ℕ) → x ≡ ok (a, q) → (p ≤ q) × (q ≤ r.end))
          → ◌≢◌ {A = Result (B × ℕ)}
              (elim x [ ok (a, q) ↦ f a r q | err e ↦ err e | stuck ↦ stuck ])
              stuck
      go r p h (ok (a, q)) n b = (kf a).ends r q (b a q refl).1
      go r p h (err e) n b = λ k. cc
      go r p h stuck n b = absurd (n refl)

IsWithin-if :
    {A : Type 0} (b : Bool) (m n : Reading A)
    → IsWithin m
    → IsWithin n
    → IsWithin (if b then m else n)
IsWithin-if true m n km kn = km
IsWithin-if false m n km kn = kn

IsWithin-pure : {A : Type 0} (a : A) → IsWithin (pure a)
unfolding pure
IsWithin-pure a = record {
  ends = λ r p h e. cc;
  bounds = λ r p b q h e. (ground arith, ground arith);
}

IsWithin-throw_if : (bad : Bool) (x : Error) → IsWithin (throw_if bad x)
unfolding throw_if
IsWithin-throw_if true x = record { ends = λ r p h e. cc; bounds = λ r p b q h e. absurd cc }
IsWithin-throw_if false x = record {
  ends = λ r p h e. cc;
  bounds = λ r p b q h e. (ground arith, ground arith);
}

IsWithin-position : IsWithin position
unfolding position
IsWithin-position = record {
  ends = λ r p h e. cc;
  bounds = λ r p b q h e. (ground arith, ground arith);
}

IsWithin-end_position : IsWithin end_position
unfolding end_position
IsWithin-end_position = record {
  ends = λ r p h e. cc;
  bounds = λ r p b q h e. (ground arith, ground arith);
}

IsWithin-subarray : (start end : ℕ) → IsWithin (subarray start end)
unfolding subarray
IsWithin-subarray start end = record {
  ends = λ r p h e. cc;
  bounds = λ r p b q h e. (ground arith, ground arith);
}

pub IsWithin-byte : IsWithin byte
IsWithin-byte = IsParser-IsWithin byte IsParser-byte

pub IsWithin-u32 : IsWithin u32
IsWithin-u32 = IsParser-IsWithin u32 IsParser-u32

pub IsWithin-leb : (limit : ℕ) → IsWithin (leb limit)
IsWithin-leb limit = IsParser-IsWithin (leb limit) (IsParser-leb limit)

pub IsWithin-skip : (count : ℕ) → IsWithin (skip count)
IsWithin-skip count = IsParser-IsWithin (skip count) (IsParser-skip count)

pub IsWithin-heap_type : IsWithin heap_type
IsWithin-heap_type = IsParser-IsWithin heap_type IsParser-heap_type

pub IsWithin-value_type : IsWithin value_type
IsWithin-value_type = IsParser-IsWithin value_type IsParser-value_type

pub IsWithin-block_type : IsWithin block_type
IsWithin-block_type = IsParser-IsWithin block_type IsParser-block_type

pub IsWithin-memory_argument : IsWithin memory_argument
IsWithin-memory_argument = IsParser-IsWithin memory_argument IsParser-memory_argument

pub IsWithin-table_type : IsWithin table_type
IsWithin-table_type = IsParser-IsWithin table_type IsParser-table_type

pub IsWithin-simd_immediates : (code : ℕ) → IsWithin (simd_immediates code)
IsWithin-simd_immediates code =
    IsParser-IsWithin (simd_immediates code) (IsParser-simd_immediates code)

pub IsWithin-name : IsWithin name
unfolding name
IsWithin-name = IsWithin-bind _ _ IsWithin-u32 λ len. IsWithin-bind _ _ IsWithin-position λ start.
    IsWithin-bind _ _ (IsWithin-skip len)
      λ u. IsWithin-bind _ _ IsWithin-position λ end. IsWithin-subarray start end

pub IsWithin-bounded_memory : (maximum : ℕ) → IsWithin (bounded_memory maximum)
unfolding bounded_memory
IsWithin-bounded_memory maximum = IsWithin-bind _ _ IsWithin-u32 λ count.
    IsWithin-bind _ _ (IsWithin-throw_if _ _) λ one. IsWithin-bind _ _ IsWithin-position λ at.
      IsWithin-bind _ _ IsWithin-end_position λ end.
        IsWithin-bind _ _ (IsWithin-throw_if _ _) λ more. IsWithin-bind _ _ IsWithin-byte λ flags.
          IsWithin-bind _ _ (IsWithin-throw_if _ _) λ plain.
            IsWithin-bind _ _ IsWithin-u32 λ initial.
              IsWithin-bind _ _ (IsWithin-if _ _ _ IsWithin-u32 (IsWithin-pure _)) λ declared.
                IsWithin-bind _ _ IsWithin-position λ at'.
                  IsWithin-bind _ _ (IsWithin-throw_if _ _)
                    λ right. IsWithin-bind _ _ (IsWithin-throw_if _ _) λ fits. IsWithin-pure _

pub IsWithin-next_is : (value : ℕ) → IsWithin (next_is value)
IsWithin-next_is value = record {
  ends = λ r p h e. cc;
  bounds = λ r p b q h e. (ground arith, ground arith);
}

pub IsWithin-s32 : IsWithin s32
IsWithin-s32 = IsParser-IsWithin s32 (record { reads = Reads-s32; total = Total-s32 })
