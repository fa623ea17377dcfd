-- ===== src/Rewriter/Instrument/Code.antt =====
-- The code section, with the thunks, and the name section in `instrument` of
-- sdk/typescript/rewriter.ts.
use capnpc_wasm.Common.{
  ℕ, zero, suc, ◌+◌, ◌-◌, true, not, Option, none, some, List, [], ◌∷◌, ltb, leb as le_b, ◌==◌,
  if◌then◌else◌, length, get_or,
}
use capnpc_wasm.Common.Result.{type_error}
use capnpc_wasm.Rewriter.Reader
use capnpc_wasm.Rewriter.Reader.{Reader}
use capnpc_wasm.Rewriter.Writer.{Writer, new, byte, bytes, u32, name, append}
use capnpc_wasm.Rewriter.Types.{has_code}
use capnpc_wasm.Rewriter.Checks.{check_sequence}
use capnpc_wasm.Rewriter.Instrument.Pass.{
  State, Pass, pure, throw_if, read, get, modify, position, end_position, subarray, out_of_fuel,
  times, each, inside, try, ◌>>=◌, ◌>>◌,
}
use capnpc_wasm.Rewriter.Instrument.Parts.{codes, shift, countdown, emit, done}
use capnpc_wasm.Rewriter.Instrument.Body.{function_body, is_call_of}

-- A body of the loop `for (let i = 0; i < count; i++)`, with its index.
unfoldable pub code_entry : List ℕ → ℕ × Writer → Pass (ℕ × Writer)
code_entry check entry = do
  size ← read Reader.u32
  start ← position
  read (Reader.skip size)
  s ← get
  body ← inside start (start + size) (function_body (get_or s.function_types entry.0 0) check)
  pure (entry.0 + 1, append body (u32 body.size entry.1))

-- `local.get i` for each parameter from `i` on.
unfoldable pub forward : ℕ → ℕ → Writer → Writer
forward zero i w = w
forward (suc count) i w = forward count (i + 1) (u32 i (byte 0x20 w))

-- A thunk forwards its parameters to the import and checks after it.
unfoldable pub thunk_body : State → List ℕ → ℕ → Writer
thunk_body s check index =
    let params = get_or s.param_counts (get_or s.import_types index 0) 0 in
    let called = u32 index (byte 0x10 (forward params 0 (byte 0 new))) in
    byte 0x0b (if is_call_of s.exit_function index then byte 0x00 called else bytes check called)

abbrev pub add_thunk : State → List ℕ → ℕ → Writer → Writer
add_thunk s check index payload =
    let body = thunk_body s check index in append body (u32 body.size payload)

unfoldable pub code : Pass (Unit {0})
code = do
  s ← get
  let check = check_sequence (countdown s) s.imported_functions s.interval
  count ← read Reader.u32
  throw_if (not (count == s.defined_functions)) (type_error "invalid Wasm code section")
  modify λ s. record s { code_seen = true }
  bodies ← times count (code_entry check) (0, u32 (count + length s.thunk_imports) new)
  done "invalid Wasm code section"
  s' ← get
  modify λ s. record s { result = record s.result { functions = s.result.functions + count } }
  emit 10 (each (add_thunk s' check) s'.thunk_imports bodies.1)

unfoldable pub function_name : Writer → Pass Writer
function_name rewritten = do
  index ← read Reader.u32
  s ← get
  start ← position
  text ← read Reader.name
  end ← position
  part ← subarray start end
  pure (bytes part (u32 (shift s index) rewritten))

unfoldable pub local_name : Pass (Unit {0})
local_name = do index ← read Reader.u32; text ← read Reader.name; pure tt

unfoldable pub local_names : Writer → Pass Writer
local_names rewritten = do
  index ← read Reader.u32
  s ← get
  start ← position
  locals ← read Reader.u32
  times locals (λ u. local_name) tt
  end ← position
  part ← subarray start end
  pure (bytes part (u32 (shift s index) rewritten))

abbrev pub kept_subsections : List ℕ
kept_subsections = 0 ∷ 4 ∷ 5 ∷ 6 ∷ 7 ∷ 8 ∷ 9 ∷ 11 ∷ []

-- A subsection, read by `part`: what is written for it, or none to drop the section.
unfoldable pub subsection : ℕ → Pass (Option Writer)
subsection id =
    if id == 1
    then (do
      count ← read Reader.u32
      rewritten ← times count function_name (u32 count new)
      pure (some rewritten))
    else if id == 2
    then (do
      count ← read Reader.u32
      rewritten ← times count local_names (u32 count new)
      pure (some rewritten))
    else if has_code kept_subsections id
    then (do
      start ← position
      end ← end_position
      read (Reader.skip (end - start))
      part ← subarray start end
      pure (some (bytes part new)))
    else pure none

-- `if (part.position !== end) return undefined;`
abbrev pub complete : Option Writer → Pass (Option Writer)
complete none = pure none
complete (some rewritten) = do
  at ← position
  end ← end_position
  pure (if at == end then some rewritten else none)

abbrev pub add_subsection : ℕ → Writer → Writer → Writer
add_subsection id rewritten payload = append rewritten (u32 rewritten.size (byte id payload))

-- Each round reads a byte at least.
unfoldable pub names_loop : ℕ → Writer → Pass (Option Writer)
names_loop zero payload = out_of_fuel
names_loop (suc fuel) payload = do
  at ← position
  end ← end_position
  if le_b end at then pure (some payload) else (do
    id ← read Reader.byte
    size ← read Reader.u32
    start ← position
    if ltb end (start + size) then pure none else (do
      read (Reader.skip size)
      part ← inside start (start + size) (subsection id >>= complete)
      elim part [
        | none ↦ pure none
        | some rewritten ↦ names_loop fuel (add_subsection id rewritten payload)
      ]))

unfoldable pub names : Pass (Option Writer)
names = do
  s ← get
  end ← end_position
  if ltb s.last_order 2 then pure none else try (names_loop (suc end) (name (codes "name") new))
