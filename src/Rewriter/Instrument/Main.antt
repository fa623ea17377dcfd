-- ===== src/Rewriter/Instrument/Main.antt =====
-- The loop of `instrument` in sdk/typescript/rewriter.ts over the sections, and the function.
use capnpc_wasm.Common.{
  ℕ, zero, suc, ◌+◌, ◌-◌, ◌^◌, Bool, true, false, not, ◌&&◌, ◌||◌, Option, none, some, List, [],
  ◌∷◌, ltb, leb as le_b, ◌==◌, if◌then◌else◌, length, take,
}
use capnpc_wasm.Common.Number.{Number, is_safe_integer, lt_zero, whole_part}
use capnpc_wasm.Common.Result.{
  Error, Result, ok, err, stuck, type_error, type_error_code, range_error,
}
use capnpc_wasm.Common.Result
use capnpc_wasm.Rewriter.Reader
use capnpc_wasm.Rewriter.Reader.{Reader}
use capnpc_wasm.Rewriter.Writer.{Writer, new, bytes, finish}
use capnpc_wasm.Rewriter.Memory.{ModuleValue, module_bytes}
use capnpc_wasm.Rewriter.Instrument.Pass.{
  State, Counters, absent, renumbered, dropped, Pass, pure, throw, throw_if, read, get, modify,
  position, end_position, out_of_fuel, inside, ◌>>=◌, ◌>>◌,
}
use capnpc_wasm.Rewriter.Instrument.Parts.{decodes_to, emit, verbatim, synthesize_before}
use capnpc_wasm.Rewriter.Instrument.Sections.{
  types, imports, function_types, tables, memory, globals, exports, start, elements,
}
use capnpc_wasm.Rewriter.Instrument.Code.{code, names}

-- `sectionOrder[id]`
abbrev pub find_order : ℕ → List (ℕ × ℕ) → Option ℕ
find_order id [] = none
find_order id ((key, order) ∷ rest) = if key == id then some order else find_order id rest

abbrev pub section_order : List (ℕ × ℕ)
section_order =
    (1, 1)
    ∷ (2, 2)
    ∷ (3, 3)
    ∷ (4, 4)
    ∷ (5, 5)
    ∷ (13, 6)
    ∷ (6, 7)
    ∷ (7, 8)
    ∷ (8, 9)
    ∷ (9, 10)
    ∷ (12, 11)
    ∷ (10, 12)
    ∷ (11, 13)
    ∷ []

abbrev pub renamed : Option Writer → Pass (Unit {0})
renamed none = modify λ s. record s { result = record s.result { names = dropped } }
renamed (some payload) = do
  modify λ s. record s { result = record s.result { names = renumbered } }
  emit 0 payload

-- `keptCustomSections.has(name)`
abbrev pub is_kept : List ℕ → Bool
is_kept name = decodes_to "producers" name || decodes_to "target_features" name

-- A custom section; `begin` is where its payload starts.
unfoldable pub custom : ℕ → Pass (Unit {0})
custom begin = do
  name ← read Reader.name
  if decodes_to "name" name
      then (do fate ← names; renamed fate)
      else if is_kept name
      then (do end ← end_position; payload ← verbatim begin end; emit 0 payload)
      else pure tt

-- The `switch` on the id of a section in order.
unfoldable pub section : ℕ → ℕ → Pass (Unit {0})
section begin id =
    if id == 1
    then types
    else if id == 2
    then imports
    else if id == 3
    then function_types
    else if id == 4
    then tables
    else if id == 5
    then memory
    else if id == 6
    then globals
    else if id == 7
    then exports
    else if id == 8
    then start
    else if id == 9
    then elements
    else if id == 10
    then code
    else (do end ← end_position; payload ← verbatim begin end; emit id payload)

abbrev pub in_order : ℕ → ℕ → ℕ → Option ℕ → Pass (Unit {0})
in_order begin end id none = throw (type_error_code "unsupported Wasm section" id)
in_order begin end id (some order) = do
  s ← get
  throw_if (le_b order s.last_order) (type_error "invalid Wasm section order")
  modify λ s. record s { last_order = order }
  synthesize_before order
  inside begin end (section begin id)

-- One round of `while (reader.position < bytes.length)`.
unfoldable pub one_section : Pass (Unit {0})
one_section = do
  id ← read Reader.byte
  size ← read Reader.u32
  begin ← position
  end ← end_position
  throw_if (ltb end (begin + size)) (type_error "truncated Wasm section")
  read (Reader.skip size)
  if id == 0
      then inside begin (begin + size) (custom begin)
      else in_order begin (begin + size) id (find_order id section_order)

unfoldable pub sections : ℕ → Pass (Unit {0})
sections zero = out_of_fuel
sections (suc fuel) = do
  at ← position
  end ← end_position
  if le_b end at then pure tt else one_section >> sections fuel

-- `synthesizeBefore(Infinity)`: every order in the source is below 14.
abbrev pub infinity : ℕ
infinity = 14

unfoldable pub all_sections : Pass (Unit {0})
all_sections = do
  end ← end_position
  sections (suc end)
  synthesize_before infinity
  s ← get
  throw_if (not s.memory_seen) (type_error "WASI command requires exactly one defined memory")
  throw_if (ltb 0 s.defined_functions && not s.code_seen) (type_error "invalid Wasm code section")

abbrev pub no_counts : Counters
no_counts = record {
  functions = 0;
  entry_checks = 0;
  loop_checks = 0;
  import_checks = 0;
  bulk_checks = 0;
  thunks = 0;
  names = absent;
}

-- The local variables before the loop.
abbrev pub start_state : ℕ → ℕ → List ℕ → State
start_state maximum interval module_ = record {
  maximum = maximum;
  interval = interval;
  output = bytes (take 8 module_) new;
  result = no_counts;
  last_order = 0;
  type_count = 0;
  param_counts = [];
  imported_functions = 0;
  import_types = [];
  imported_globals = 0;
  defined_globals = 0;
  defined_functions = 0;
  function_types = [];
  exit_function = none;
  memory_seen = false;
  code_seen = false;
  pending = record { type_ = true; import_ = true; global = true; export = true };
  functions = none;
  thunk_of = [];
  thunk_imports = [];
  elements_seen = false;
  sealed = false;
}

pub record Instrumented : Type 0 where
  pub bytes : List ℕ
  pub counts : Counters

abbrev pub instrumented : Result (Unit {0} × State × ℕ) → Result Instrumented
instrumented (ok (u, s, p)) = ok (record { bytes = finish s.output; counts = s.result })
instrumented (err e) = err e
instrumented stuck = stuck

-- `!Number.isSafeInteger(interval) || interval < 1 || interval > 2 ** 31 - 1`
abbrev pub bad_interval : Number → Bool
bad_interval x =
    not (is_safe_integer x) || lt_zero x || ltb (whole_part x) 1 || ltb (2 ^ 31 - 1) (whole_part x)

unfoldable pub instrument : ModuleValue → ℕ → Number → Result Instrumented
instrument module_ maximum interval =
    Result.◌>>◌
      (Result.throw_if (bad_interval interval) (range_error "invalid interruption interval"))
      (Result.◌>>=◌ (module_bytes module_) λ bytes. instrumented (
        all_sections (record { bytes = bytes; end = length bytes })
          (start_state maximum (whole_part interval) bytes) 8))
