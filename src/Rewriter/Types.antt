-- ===== src/Rewriter/Types.antt =====
-- The parsers of types and immediates in sdk/typescript/rewriter.ts, which the instrumentation uses
-- to find where an instruction ends.
use capnpc_wasm.Common.{
  ℕ, ◌+◌, bit_and, Bool, true, false, not, ◌&&◌, ◌||◌, List, [], ◌∷◌, ltb, leb as le_b, ◌==◌,
  if◌then◌else◌,
}
use capnpc_wasm.Common.Result.{Error, type_error, type_error_code}
use capnpc_wasm.Rewriter.Reader.{
  Reader, Reading, pure, throw, throw_if, ◌>>=◌, ◌>>◌, byte, u32, leb, skip,
}
pub mod Closed
mod Tests

-- `set.has(code)`
abbrev pub has_code : List ℕ → ℕ → Bool
has_code [] code = false
has_code (c ∷ codes) code = c == code || has_code codes code

abbrev pub value_types : List ℕ
value_types =
    0x7f ∷ 0x7e ∷ 0x7d ∷ 0x7c ∷ 0x7b ∷ 0x74 ∷ 0x73 ∷ 0x72 ∷ 0x71 ∷ 0x70 ∷ 0x6f ∷ 0x6e ∷ 0x6d ∷ 0x6c
    ∷ 0x6b ∷ 0x6a ∷ 0x69 ∷ []

unfoldable pub heap_type : Reading (Unit {0})
heap_type = leb 5

unfoldable pub value_type : Reading (Unit {0})
value_type = do
  code ← byte
  if code == 0x63 || code == 0x64
      then heap_type
      else throw_if (not (has_code value_types code))
          (type_error_code "unsupported Wasm value type" code)

unfoldable pub block_type : Reading (Unit {0})
block_type = do
  code ← byte
  if code == 0x63 || code == 0x64
      then heap_type
      else if not (bit_and code 128 == 0)
      then leb 4
      else pure tt

unfoldable pub memory_argument : Reading (Unit {0})
memory_argument = do
  alignment ← u32
  index ← if not (bit_and alignment 64 == 0) then u32 else pure 0
  leb 10

unfoldable pub table_type : Reading (Unit {0})
table_type = do
  element ← value_type
  flags ← byte
  throw_if (ltb 1 flags) (type_error "unsupported Wasm table limits")
  minimum ← u32
  maximum ← if flags == 1 then u32 else pure 0
  pure tt

abbrev pub unassigned_simd : List ℕ
unassigned_simd =
    0x9a ∷ 0xa2 ∷ 0xa5 ∷ 0xa6 ∷ 0xaf ∷ 0xb0 ∷ 0xb2 ∷ 0xb3 ∷ 0xb4 ∷ 0xbb ∷ 0xc2 ∷ 0xc5 ∷ 0xc6 ∷ 0xcf
    ∷ 0xd0 ∷ 0xd2 ∷ 0xd3 ∷ 0xd4 ∷ 0xe2 ∷ 0xee ∷ []

unfoldable pub simd_immediates : ℕ → Reading (Unit {0})
simd_immediates code =
    if le_b code 0x0b || code == 0x5c || code == 0x5d
    then memory_argument
    else if code == 0x0c || code == 0x0d
    then skip 16
    else if le_b 0x15 code && le_b code 0x22
    then skip 1
    else if le_b 0x54 code && le_b code 0x5b
    then memory_argument >> skip 1
    else throw_if (ltb 0x113 code || has_code unassigned_simd code)
        (type_error_code "unsupported Wasm instruction 0xfd" code)
