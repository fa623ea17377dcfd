-- ===== src/Rewriter/Types/Tests.antt =====
-- Runs of the parsers of sdk/typescript/rewriter.ts.
use capnpc_wasm.Common.{◌≡◌, refl, [], ◌∷◌}
use capnpc_wasm.Common.Result.{ok, err, type_error_code}
use capnpc_wasm.Rewriter.Reader.{Reader, byte, u32, ◌>>=◌}
use capnpc_wasm.Rewriter.Types.{value_type, table_type, simd_immediates}

-- A funcref table of 1 to 2 entries, then an i32.
abbrev table : Reader
table = record { bytes = 0x70 ∷ 1 ∷ 1 ∷ 2 ∷ 0x7f ∷ []; end = 5 }

table_read : table_type table 0 ≡ ok (tt, 4)
unfolding table_type value_type byte u32 ◌>>=◌
table_read = refl

unassigned :
    simd_immediates 0x9a table 0 ≡ err (type_error_code "unsupported Wasm instruction 0xfd" 0x9a)
unfolding simd_immediates ◌>>=◌
unassigned = refl
