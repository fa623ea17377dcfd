-- ===== src/Rewriter/Instrument/Sections.antt =====
-- The handlers of the type, import, function, table, global, export, start and element sections in
-- `instrument` of sdk/typescript/rewriter.ts.
use capnpc_wasm.Common.{
  ℕ, ◌+◌, bit_and, Bool, true, false, not, ◌&&◌, ◌||◌, some, List, [], ◌∷◌, ◌++◌, ltb, leb as le_b,
  ◌==◌, if◌then◌else◌, length, get_or,
}
use capnpc_wasm.Common.Result.{ok, type_error, type_error_code}
use capnpc_wasm.Rewriter.Reader
use capnpc_wasm.Rewriter.Reader.{Reader, Reading}
use capnpc_wasm.Rewriter.Writer
use capnpc_wasm.Rewriter.Writer.{Writer, new, byte, bytes, u32, append}
use capnpc_wasm.Rewriter.Types.{value_type, table_type}
use capnpc_wasm.Rewriter.Memory.{bounded_memory}
use capnpc_wasm.Rewriter.Instrument.Pass.{
  Pass, pure, throw, throw_if, read, get, modify, position, end_position, subarray, times, each,
  ◌>>=◌, ◌>>◌,
}
use capnpc_wasm.Rewriter.Instrument.Parts.{
  decodes_to, countdown_export, shift, reference, emit, verbatim, done, interrupt_type,
  interrupt_import, countdown_global, declare_thunks, seal, countdown_entry, constant,
}

-- `for (let j = 0; j < length; j++) valueType(reader);`
abbrev pub value_types_of : ℕ → Pass (Unit {0})
value_types_of count = times count (λ u. read value_type) tt

unfoldable pub type_entry : Pass (Unit {0})
type_entry = do
  form ← read Reader.byte
  throw_if (not (form == 0x60)) (
      type_error
        "unsupported Wasm type: only function types are supported (no GC types or recursion groups)")
  params ← read Reader.u32
  modify λ s. record s { param_counts = s.param_counts ++ (params ∷ []) }
  value_types_of params
  results ← read Reader.u32
  value_types_of results

unfoldable pub types : Pass (Unit {0})
types = do
  count ← read Reader.u32
  entries ← position
  times count (λ u. type_entry) tt
  done "invalid Wasm type section"
  modify λ s. record s { type_count = count }
  end ← end_position
  part ← subarray entries end
  modify λ s. record s { pending = record s.pending { type_ = false } }
  emit 1 (interrupt_type (bytes part (u32 (count + 1) new)))

abbrev pub is_exit : List ℕ → List ℕ → Bool
is_exit module_name field_name =
    decodes_to "wasi_snapshot_preview1" module_name && decodes_to "proc_exit" field_name

unfoldable pub import_function : List ℕ → List ℕ → Pass (Unit {0})
import_function module_name field_name = do
  type_ ← read Reader.u32
  s ← get
  throw_if (le_b s.type_count type_) (type_error "invalid Wasm type index")
  modify λ s. record s {
    import_types = s.import_types ++ (type_ ∷ []);
    exit_function =
        if is_exit module_name field_name then some s.imported_functions else s.exit_function;
    imported_functions = s.imported_functions + 1;
  }

unfoldable pub import_memory : Pass (Unit {0})
import_memory = do
  flags ← read Reader.byte
  throw_if (ltb 15 flags || not (bit_and flags 6 == 0))
      (type_error "unsupported Wasm memory import")
  read (Reader.leb 10)
  if bit_and flags 1 == 0 then pure tt else read (Reader.leb 10)
  index ← if bit_and flags 8 == 0 then pure 0 else read Reader.u32
  pure tt

abbrev pub mutability : Pass (Unit {0})
mutability = do
  flag ← read Reader.byte
  throw_if (ltb 1 flag) (type_error "unsupported Wasm global mutability")

unfoldable pub import_global : Pass (Unit {0})
import_global = do
  read value_type
  mutability
  modify λ s. record s { imported_globals = s.imported_globals + 1 }

unfoldable pub import_tag : Pass (Unit {0})
import_tag = do
  attribute ← read Reader.byte
  throw_if (not (attribute == 0)) (type_error "unsupported Wasm tag")
  type_ ← read Reader.u32
  pure tt

unfoldable pub import_entry : Pass (Unit {0})
import_entry = do
  module_name ← read Reader.name
  field_name ← read Reader.name
  kind ← read Reader.byte
  if kind == 0
      then import_function module_name field_name
      else if kind == 1
      then read table_type
      else if kind == 2
      then import_memory
      else if kind == 3
      then import_global
      else if kind == 4
      then import_tag
      else throw (type_error_code "unsupported Wasm import kind" kind)

unfoldable pub imports : Pass (Unit {0})
imports = do
  count ← read Reader.u32
  entries ← position
  times count (λ u. import_entry) tt
  done "invalid Wasm import section"
  end ← end_position
  part ← subarray entries end
  s ← get
  modify λ s. record s { pending = record s.pending { import_ = false } }
  emit 2 (interrupt_import s (bytes part (u32 (count + 1) new)))

unfoldable pub function_entry : Pass (Unit {0})
function_entry = do
  type_ ← read Reader.u32
  s ← get
  throw_if (le_b s.type_count type_) (type_error "invalid Wasm type index")
  modify λ s. record s { function_types = s.function_types ++ (type_ ∷ []) }

-- `case 3` of the loop over the sections: the section's place is kept.
unfoldable pub function_types : Pass (Unit {0})
function_types = do
  count ← read Reader.u32
  entries ← position
  times count (λ u. function_entry) tt
  done "invalid Wasm function section"
  end ← end_position
  modify λ s.
      let reserved = Writer.slot s.output in
      record s {
        defined_functions = count;
        output = reserved.0;
        functions = some (record { entries = entries; end = end; slot = reserved.1 });
      }

-- `reader.bytes[reader.position] === 0x40`; past the bytes it is undefined.
abbrev pub next_is : ℕ → Reading Bool
next_is value r p = ok (ltb p (length r.bytes) && get_or r.bytes p 0 == value, p)

unfoldable pub table_entry : Pass (Unit {0})
table_entry = do
  initialized ← read (next_is 0x40)
  throw_if initialized (type_error "unsupported Wasm table initializer")
  read table_type

unfoldable pub tables : Pass (Unit {0})
tables = do
  start ← position
  count ← read Reader.u32
  times count (λ u. table_entry) tt
  done "invalid Wasm table section"
  end ← end_position
  payload ← verbatim start end
  emit 4 payload

-- `case 5`
unfoldable pub memory : Pass (Unit {0})
memory = do
  modify λ s. record s { memory_seen = true }
  s ← get
  payload ← read (bounded_memory s.maximum)
  emit 5 (each byte payload new)

unfoldable pub global_entry : Writer → Pass Writer
global_entry payload = do
  start ← position
  read value_type
  mutability
  end ← position
  part ← subarray start end
  constant (bytes part payload)

unfoldable pub globals : Pass (Unit {0})
globals = do
  count ← read Reader.u32
  payload ← times count global_entry (u32 (count + 1) new)
  done "invalid Wasm global section"
  modify λ s. record s { defined_globals = count }
  s ← get
  modify λ s. record s { pending = record s.pending { global = false } }
  emit 6 (countdown_global s payload)

unfoldable pub export_entry : Writer → Pass Writer
export_entry payload = do
  start ← position
  name ← read Reader.name
  throw_if (decodes_to countdown_export name)
      (type_error "the export name capnp_wasm.countdown is reserved")
  end ← position
  part ← subarray start end
  kind ← read Reader.byte
  throw_if (ltb 4 kind) (type_error_code "unsupported Wasm export kind" kind)
  index ← read Reader.u32
  thunk ← if kind == 0 then reference index else pure index
  s ← get
  pure (u32 (if kind == 0 then shift s index else index) (byte kind (bytes part payload)))

unfoldable pub exports : Pass (Unit {0})
exports = do
  count ← read Reader.u32
  payload ← times count export_entry (u32 (count + 1) new)
  done "invalid Wasm export section"
  s ← get
  modify λ s. record s { pending = record s.pending { export = false } }
  emit 7 (countdown_entry s payload)

-- `case 8`
unfoldable pub start : Pass (Unit {0})
start = do
  index ← read Reader.u32
  s ← get
  done "invalid Wasm start section"
  emit 8 (u32 (shift s index) new)

-- `flags & mask`, as a condition.
abbrev pub has_bits : ℕ → ℕ → Bool
has_bits mask flags = not (bit_and flags mask == 0)

unfoldable pub element_offset : ℕ → Writer → Pass Writer
element_offset flags segments = if has_bits 1 flags then pure segments else (do
  segments' ←
      if has_bits 2 flags
      then (do table ← read Reader.u32; pure (u32 table segments))
      else pure segments
  constant segments')

unfoldable pub element_expressions : ℕ → Writer → Pass Writer
element_expressions flags segments = do
  begin ← position
  segments' ←
      if has_bits 3 flags
      then (do
        read value_type
        end ← position
        part ← subarray begin end
        pure (bytes part segments))
      else pure segments
  count ← read Reader.u32
  times count constant (u32 count segments')

unfoldable pub element_index : Writer → Pass Writer
element_index segments = do
  index ← read Reader.u32
  target ← reference index
  pure (u32 target segments)

unfoldable pub element_indices : ℕ → Writer → Pass Writer
element_indices flags segments = do
  segments' ←
      if has_bits 3 flags
      then (do
        kind ← read Reader.byte
        throw_if (not (kind == 0)) (type_error "unsupported Wasm element kind")
        pure (byte 0 segments))
      else pure segments
  count ← read Reader.u32
  times count element_index (u32 count segments')

unfoldable pub element_segment : Writer → Pass Writer
element_segment segments = do
  flags ← read Reader.u32
  throw_if (ltb 7 flags) (type_error "unsupported Wasm element segment")
  segments' ← element_offset flags (u32 flags segments)
  if has_bits 4 flags then element_expressions flags segments' else element_indices flags segments'

unfoldable pub elements : Pass (Unit {0})
elements = do
  count ← read Reader.u32
  segments ← times count element_segment new
  done "invalid Wasm element section"
  modify λ s. record s { elements_seen = true }
  s ← get
  let thunks = not (length s.thunk_imports == 0)
  let payload = append segments (u32 (count + (if thunks then 1 else 0)) new)
  emit 9 (if thunks then declare_thunks s payload else payload)
  seal
