-- ===== src/Rewriter/Instrument/Parts.antt =====
-- The inner functions of `instrument` in sdk/typescript/rewriter.ts that the section handlers share.
use Prim.Native.Char.{code}
use capnpc_wasm.Common.{
  ℕ, zero, suc, ◌+◌, Bool, true, false, not, ◌&&◌, ◌||◌, String, Option, none, some, List, [], ◌∷◌,
  ◌++◌, ltb, leb as le_b, ◌==◌, if◌then◌else◌, length, get_or,
}
use capnpc_wasm.Common.Result.{type_error, type_error_code}
use capnpc_wasm.Rewriter.Reader
use capnpc_wasm.Rewriter.Reader.{Reader}
use capnpc_wasm.Rewriter.Writer.{Writer, new, byte, bytes, u32, s32, name, append, fill}
use capnpc_wasm.Rewriter.Types.{heap_type}
use capnpc_wasm.Rewriter.Instrument.Pass.{
  State, Functions, Pass, pure, throw, throw_if, read, get, modify, position, end_position,
  subarray, out_of_fuel, each, ◌>>=◌, ◌>>◌,
}

-- The bytes of an ASCII text.
abbrev pub codes : String → List ℕ
codes String.[] = []
codes (String.◌∷◌ c s) = code c ∷ codes s

abbrev pub same_bytes : List ℕ → List ℕ → Bool
same_bytes [] [] = true
same_bytes (a ∷ left) (b ∷ right) = a == b && same_bytes left right
same_bytes _ _ = false

-- TextDecoder drops a byte order mark at the start.
abbrev pub without_mark : List ℕ → List ℕ
without_mark (a ∷ b ∷ c ∷ rest) =
    if a == 0xef && b == 0xbb && c == 0xbf then rest else a ∷ b ∷ c ∷ rest
without_mark bytes = bytes

-- Whether the bytes decode to an ASCII text.
abbrev pub decodes_to : String → List ℕ → Bool
decodes_to text encoded = same_bytes (without_mark encoded) (codes text)

abbrev pub interrupt_module : String
interrupt_module = "capnp_wasm"

abbrev pub interrupt_name : String
interrupt_name = "interrupt"

abbrev pub countdown_export : String
countdown_export = "capnp_wasm.countdown"

unfoldable pub shift : State → ℕ → ℕ
shift s index = if le_b s.imported_functions index then index + 1 else index

abbrev pub countdown : State → ℕ
countdown s = s.imported_globals + s.defined_globals

-- `thunkOf.get(index)`
abbrev pub lookup : ℕ → List (ℕ × ℕ) → Option ℕ
lookup index [] = none
lookup index ((key, value) ∷ rest) = if key == index then some value else lookup index rest

abbrev pub next_thunk : State → ℕ
next_thunk s = s.imported_functions + 1 + s.defined_functions + length s.thunk_imports

abbrev pub thunk_for : ℕ → Option ℕ → Pass ℕ
thunk_for index (some thunk) = pure thunk
thunk_for index none = do
  s ← get
  throw_if s.sealed (type_error "undeclared Wasm function reference")
  modify λ s. record s {
    thunk_of = (index, next_thunk s) ∷ s.thunk_of;
    thunk_imports = s.thunk_imports ++ (index ∷ []);
  }
  pure (next_thunk s)

unfoldable pub reference : ℕ → Pass ℕ
reference index = do
  s ← get
  if le_b s.imported_functions index
      then pure (index + 1)
      else if s.defined_functions == 0
      then pure index
      else thunk_for index (lookup index s.thunk_of)

unfoldable pub framed : ℕ → Writer → Writer
framed id payload = append payload (u32 payload.size (byte id new))

abbrev pub emit_to : ℕ → Writer → State → State
emit_to id payload s = record s { output = append (framed id payload) s.output }

unfoldable pub emit : ℕ → Writer → Pass (Unit {0})
emit id payload = modify (emit_to id payload)

unfoldable pub verbatim : ℕ → ℕ → Pass Writer
verbatim start end = do part ← subarray start end; pure (bytes part new)

unfoldable pub done : String → Pass (Unit {0})
done message = do at ← position; end ← end_position; throw_if (not (at == end)) (type_error message)

unfoldable pub interrupt_type : Writer → Writer
interrupt_type payload = byte 0x7f (byte 1 (byte 0 (byte 0x60 payload)))

unfoldable pub interrupt_import : State → Writer → Writer
interrupt_import s payload =
    u32 s.type_count (byte 0 (name (codes interrupt_name) (name (codes interrupt_module) payload)))

unfoldable pub countdown_global : State → Writer → Writer
countdown_global s payload = byte 0x0b (s32 s.interval (byte 0x41 (byte 1 (byte 0x7f payload))))

abbrev pub or_zero : Option ℕ → ℕ
or_zero none = 0
or_zero (some n) = n

-- `thunkOf.get(index)!` is there for each of the thunk imports.
unfoldable pub declare_thunks : State → Writer → Writer
declare_thunks s payload =
    each (λ index w. u32 (or_zero (lookup index s.thunk_of)) w) s.thunk_imports
      (u32 (length s.thunk_imports) (byte 0 (u32 3 payload)))

abbrev pub declared_elements : State → State
declared_elements s =
    if not s.elements_seen && not (length s.thunk_imports == 0)
    then emit_to 9 (declare_thunks s (u32 1 new)) (record s { elements_seen = true })
    else s

-- The function section with the bytes of its entries.
abbrev pub function_section : State → List ℕ → Writer
function_section s entries =
    each (λ index w. u32 (get_or s.import_types index 0) w) s.thunk_imports
      (bytes entries (u32 (s.defined_functions + length s.thunk_imports) new))

abbrev pub fill_functions : Option Functions → Pass (Unit {0})
fill_functions none = pure tt
fill_functions (some f) = do
  entries ← subarray f.entries f.end
  modify λ s. record s { output = fill f.slot (framed 3 (function_section s entries)) s.output }

unfoldable pub seal : Pass (Unit {0})
seal = do
  s ← get
  if s.sealed
      then pure tt
      else modify (λ s.
        declared_elements (record s {
          sealed = true;
          result = record s.result { thunks = length s.thunk_imports };
        }))
        >> fill_functions s.functions

unfoldable pub countdown_entry : State → Writer → Writer
countdown_entry s payload = u32 (countdown s) (byte 3 (name (codes countdown_export) payload))

-- The four `if` statements of `synthesizeBefore`, each with its `single`.
unfoldable pub missing_type : ℕ → State → State
missing_type order s =
    if s.pending.type_ && ltb 1 order
    then emit_to 1 (interrupt_type (u32 1 new))
        (record s { pending = record s.pending { type_ = false } })
    else s

unfoldable pub missing_import : ℕ → State → State
missing_import order s =
    if s.pending.import_ && ltb 2 order
    then emit_to 2 (interrupt_import s (u32 1 new))
        (record s { pending = record s.pending { import_ = false } })
    else s

unfoldable pub missing_global : ℕ → State → State
missing_global order s =
    if s.pending.global && ltb 7 order
    then emit_to 6 (countdown_global s (u32 1 new))
        (record s { pending = record s.pending { global = false } })
    else s

unfoldable pub missing_export : ℕ → State → State
missing_export order s =
    if s.pending.export && ltb 8 order
    then emit_to 7 (countdown_entry s (u32 1 new))
        (record s { pending = record s.pending { export = false } })
    else s

unfoldable pub synthesize_before : ℕ → Pass (Unit {0})
synthesize_before order = do
  modify (missing_type order)
  modify (missing_import order)
  modify (missing_global order)
  modify (missing_export order)
  if ltb 10 order then seal else pure tt

-- The immediates of a constant instruction other than `end` and `ref.func`.
unfoldable pub constant_immediates : ℕ → Pass (Unit {0})
constant_immediates op =
    if op == 0x41
    then read (Reader.leb 5)
    else if op == 0x42
    then read (Reader.leb 10)
    else if op == 0x43
    then read (Reader.skip 4)
    else if op == 0x44
    then read (Reader.skip 8)
    else if op == 0x23
    then (do index ← read Reader.u32; pure tt)
    else if op == 0xd0
    then read heap_type
    else if le_b 0x6a op && le_b op 0x6c || le_b 0x7c op && le_b op 0x7e
    then pure tt
    else if op == 0xfd
    then (do
      code ← read Reader.u32
      throw_if (not (code == 0x0c)) (type_error "unsupported Wasm constant instruction 0xfd")
      read (Reader.skip 16))
    else throw (type_error_code "unsupported Wasm constant instruction" op)

-- `for (;;)`: each round reads a byte at least.
unfoldable pub constant_loop : ℕ → Writer → Pass Writer
constant_loop zero payload = out_of_fuel
constant_loop (suc fuel) payload = do
  start ← position
  op ← read Reader.byte
  if op == 0x0b
      then pure (byte op payload)
      else if op == 0xd2
      then (do
        index ← read Reader.u32
        target ← reference index
        constant_loop fuel (u32 target (byte op payload)))
      else (do
        constant_immediates op
        end ← position
        part ← subarray start end
        constant_loop fuel (bytes part payload))

unfoldable pub constant : Writer → Pass Writer
constant payload = do end ← end_position; constant_loop (suc end) payload
