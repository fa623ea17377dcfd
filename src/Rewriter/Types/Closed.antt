-- ===== src/Rewriter/Types/Closed.antt =====
-- The parsers of types and immediates in sdk/typescript/rewriter.ts as steps of a reader: where they
-- end, and which bytes they depend on.
use capnpc_wasm.Common.{ℕ, Bool, true, false, if◌then◌else◌}
use capnpc_wasm.Common.Result.{Error}
use capnpc_wasm.Rewriter.Reader.{Reading, byte, u32, leb, skip, pure, throw_if, ◌>>=◌}
use capnpc_wasm.Rewriter.Reader.Locality.{
  Reads, Reads-u32, Reads-leb, Reads-skip, Reads-pure, Reads-byte, Reads-throw_if, Reads-bind,
}
use capnpc_wasm.Rewriter.Reader.Total.{
  Total, Total-u32, Total-leb, Total-skip, Total-pure, Total-byte, Total-throw_if, Total-bind,
}
use capnpc_wasm.Rewriter.Types.{
  heap_type, value_type, block_type, memory_argument, table_type, simd_immediates,
}

-- A parser that always ends, and whose success depends on nothing but the bytes that it passes.
pub record IsParser {ℓ} {A : Type ℓ} (m : Reading A) : Type ℓ where
  pub reads : Reads m
  pub total : Total m

module _ {ℓ κ} {A : Type ℓ} {B : Type κ} (m : Reading A) (f : A → Reading B) where
  IsParser-bind : IsParser m → ((a : A) → IsParser (f a)) → IsParser (m >>= f)
  IsParser-bind km kf = record {
    reads = Reads-bind m f km.reads λ a. (kf a).reads;
    total = Total-bind m f km.total λ a. (kf a).total;
  }

module _ {ℓ} {A : Type ℓ} where
  IsParser-if :
      (b : Bool) (m n : Reading A) → IsParser m → IsParser n → IsParser (if b then m else n)
  IsParser-if true m n km kn = km
  IsParser-if false m n km kn = kn

  IsParser-pure : (a : A) → IsParser (pure a)
  IsParser-pure a = record { reads = Reads-pure a; total = Total-pure a }

IsParser-throw_if : (bad : Bool) (x : Error) → IsParser (throw_if bad x)
IsParser-throw_if bad x = record { reads = Reads-throw_if bad x; total = Total-throw_if bad x }

pub IsParser-byte : IsParser byte
IsParser-byte = record { reads = Reads-byte; total = Total-byte }

pub IsParser-u32 : IsParser u32
IsParser-u32 = record { reads = Reads-u32; total = Total-u32 }

pub IsParser-leb : (limit : ℕ) → IsParser (leb limit)
IsParser-leb limit = record { reads = Reads-leb limit; total = Total-leb limit }

pub IsParser-skip : (count : ℕ) → IsParser (skip count)
IsParser-skip count = record { reads = Reads-skip count; total = Total-skip count }

pub IsParser-heap_type : IsParser heap_type
unfolding heap_type
IsParser-heap_type = IsParser-leb 5

pub IsParser-value_type : IsParser value_type
unfolding value_type
IsParser-value_type =
    IsParser-bind byte _ IsParser-byte
      λ code. IsParser-if _ _ _ IsParser-heap_type (IsParser-throw_if _ _)

pub IsParser-block_type : IsParser block_type
unfolding block_type
IsParser-block_type = IsParser-bind byte _ IsParser-byte λ code.
    IsParser-if _ _ _ IsParser-heap_type (IsParser-if _ _ _ (IsParser-leb 4) (IsParser-pure tt))

pub IsParser-memory_argument : IsParser memory_argument
unfolding memory_argument
IsParser-memory_argument = IsParser-bind u32 _ IsParser-u32 λ alignment.
    IsParser-bind _ _ (IsParser-if _ _ _ IsParser-u32 (IsParser-pure 0)) λ index. IsParser-leb 10

pub IsParser-table_type : IsParser table_type
unfolding table_type
IsParser-table_type = IsParser-bind value_type _ IsParser-value_type λ element.
    IsParser-bind byte _ IsParser-byte λ flags. IsParser-bind _ _ (IsParser-throw_if _ _) λ checked.
      IsParser-bind u32 _ IsParser-u32 λ minimum.
        IsParser-bind _ _ (IsParser-if _ _ _ IsParser-u32 (IsParser-pure 0))
          λ maximum. IsParser-pure tt

pub IsParser-simd_immediates : (code : ℕ) → IsParser (simd_immediates code)
unfolding simd_immediates
IsParser-simd_immediates code =
    let argument = IsParser-memory_argument in
    IsParser-if _ _ _ argument (
      IsParser-if _ _ _ (IsParser-skip 16) (
        IsParser-if _ _ _ (IsParser-skip 1) (
          IsParser-if _ _ _ (IsParser-bind memory_argument _ argument λ read. IsParser-skip 1)
            (IsParser-throw_if _ _))))
