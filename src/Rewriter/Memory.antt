-- ===== src/Rewriter/Memory.antt =====
-- `moduleBytes`, `boundedMemory` and `boundMemory` of sdk/typescript/rewriter.ts: the maximum of a
-- module's one memory is inserted or lowered, and every other byte is left as it is.
pub mod Header
pub mod Replace
pub mod Limits
pub mod Layout
pub mod Scan
pub mod Exact
pub mod Converse
pub mod Termination
use capnpc_wasm.Common.{
  ℕ, zero, suc, ◌+◌, ◌-◌, String, Bool, true, false, not, ◌&&◌, ◌||◌, Option, none, some, List, [],
  ◌∷◌, ◌++◌, min, ltb, leb as le_b, ◌==◌, if◌then◌else◌, length, get_elem?, replicate, take, drop,
}
use capnpc_wasm.Common.Result.{Error, Result, ok, err, stuck, type_error}
use capnpc_wasm.Common.Result
use capnpc_wasm.Rewriter.Reader.{
  Reader, Reading, pure, throw_if, position, end_position, ◌>>=◌, ◌>>◌, byte, u32,
}
use capnpc_wasm.Rewriter.Writer.{leb, set_at}

-- The `unknown` argument: a `Uint8Array`, or anything else.
pub data ModuleValue : Type 0 where
  uint8array : List ℕ → ModuleValue
  other : ModuleValue

abbrev pub header : List ℕ
header = 0 ∷ 97 ∷ 115 ∷ 109 ∷ 1 ∷ 0 ∷ 0 ∷ 0 ∷ []

-- `bytes[index] !== value`; an element past the end is `undefined`.
abbrev pub differs : Option ℕ → ℕ → Bool
differs none value = true
differs (some b) value = not (b == value)

-- `header.some((value, index) => bytes[index] !== value)`
unfoldable pub mismatch : List ℕ → ℕ → List ℕ → Bool
mismatch [] index bytes = false
mismatch (value ∷ values) index bytes =
    differs (get_elem? bytes index) value || mismatch values (index + 1) bytes

unfoldable pub module_bytes : ModuleValue → Result (List ℕ)
unfolding mismatch
module_bytes other = err (
    type_error
      "Wasm module bytes are required to enforce memoryPages; opaque WebAssembly.Module objects cannot be inspected")
module_bytes (uint8array bytes) =
    if mismatch header 0 bytes then err (type_error "invalid Wasm header") else ok bytes

-- The replacement payload for a memory section.
unfoldable pub bounded_memory : ℕ → Reading (List ℕ)
bounded_memory maximum = do
  count ← u32
  throw_if (not (count == 1)) (type_error "WASI command requires exactly one defined memory")
  at ← position
  end ← end_position
  throw_if (le_b end at) (type_error "truncated Wasm memory")
  flags ← byte
  throw_if (not (flags == 0) && not (flags == 1))
      (type_error "only unshared wasm32 memory is supported")
  initial ← u32
  declared ← if flags == 1 then u32 else pure 65536
  at' ← position
  throw_if (not (at' == end) || ltb declared initial || ltb 65536 declared)
      (type_error "invalid Wasm memory limits")
  throw_if (ltb maximum initial) (type_error "initial guest memory exceeds memoryPages limit")
  pure (1 ∷ 1 ∷ (leb initial ++ leb (min maximum declared)))

-- The local `memory` of `boundMemory`: the section to replace, and its replacement.
pub record Memory : Type 0 where
  pub start : ℕ
  pub stop : ℕ
  pub replacement : List ℕ

-- A section whose id is 5, from `start` up to `end`, its payload from `at` on.
unfoldable pub memory_section : List ℕ → ℕ → ℕ → ℕ → ℕ → Option Memory → Result (Option Memory)
memory_section bytes maximum start at end (some memory) =
    err (type_error "WASI command requires exactly one defined memory")
memory_section bytes maximum start at end none =
    Result.◌>>=◌ (bounded_memory maximum (record { bytes = bytes; end = end }) at) λ payload. ok (
      some (record {
        start = start;
        stop = end;
        replacement = 5 ∷ (leb (length payload.0) ++ payload.0);
      }))

-- One round of `while (reader.position < bytes.length)`: the position after the section, and
-- `memory`.
unfoldable pub scan_section : List ℕ → ℕ → ℕ → Option Memory → Result (ℕ × Option Memory)
scan_section bytes maximum start memory =
    let r : Reader = record { bytes = bytes; end = length bytes } in
    Result.◌>>=◌ (byte r start) λ header_byte. Result.◌>>=◌ (u32 r header_byte.1) λ size.
      let end = size.1 + size.0 in
      if ltb (length bytes) end
      then err (type_error "truncated Wasm section")
      else Result.◌>>=◌
          (if header_byte.0 == 5
            then memory_section bytes maximum start size.1 end memory
            else ok memory)
          λ memory'. ok (end, memory')

unfoldable pub scan : ℕ → List ℕ → ℕ → ℕ → Option Memory → Result (Option Memory)
scan zero bytes maximum start memory = stuck
scan (suc fuel) bytes maximum start memory = elim (ltb start (length bytes)) [
  | true ↦
      Result.◌>>=◌ (scan_section bytes maximum start memory)
        λ next. scan fuel bytes maximum next.0 next.1
  | false ↦ ok memory
]

-- The three `rewritten.set` calls on a fresh array of zeros.
unfoldable pub replace : List ℕ → Option Memory → Result (List ℕ)
unfolding set_at
replace bytes none = err (type_error "WASI command requires exactly one defined memory")
replace bytes (some memory) =
    let fresh =
      replicate (length bytes - (memory.stop - memory.start) + length memory.replacement) 0 in
    ok (
      set_at (memory.start + length memory.replacement) (drop memory.stop bytes)
        (set_at memory.start memory.replacement (set_at 0 (take memory.start bytes) fresh)))

-- Every section takes two bytes at least, so the rounds suffice.
unfoldable pub bound_memory : ModuleValue → ℕ → Result (List ℕ)
bound_memory module_ maximum = Result.◌>>=◌ (module_bytes module_) λ bytes.
    Result.◌>>=◌ (scan (suc (length bytes)) bytes maximum 8 none) λ memory. replace bytes memory
