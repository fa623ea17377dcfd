-- ===== src/Rewriter/Instrument/Tests.antt =====
-- `instrument` on a small module, and the theorems about it at concrete inputs.
use capnpc_wasm.Common.{
  Bool, true, false, ℕ, ◌+◌, ◌<◌, ◌≡◌, ◌≢◌, ◌↔◌, refl, true, false, List, [], ◌∷◌, ◌++◌, arith,
  length,
}
use capnpc_wasm.Common.Number.{finite}
use capnpc_wasm.Common.Result.{Error, Result, ok, err, stuck, type_error}
use capnpc_wasm.Rewriter.Memory.{uint8array, header}
use capnpc_wasm.Rewriter.Reader
use capnpc_wasm.Rewriter.Types
use capnpc_wasm.Rewriter.Memory
use capnpc_wasm.Rewriter.Checks
use capnpc_wasm.Rewriter.Writer
use capnpc_wasm.Rewriter.Instrument.Pass
use capnpc_wasm.Rewriter.Instrument.Parts
use capnpc_wasm.Rewriter.Instrument.Sections
use capnpc_wasm.Rewriter.Instrument.Body
use capnpc_wasm.Rewriter.Instrument.Code
use capnpc_wasm.Rewriter.Instrument.Main
use capnpc_wasm.Rewriter.Instrument.Pass.{State, absent}
use capnpc_wasm.Rewriter.Reader.{Reader}
use capnpc_wasm.Rewriter.Instrument.Parts.{reference}
use capnpc_wasm.Rewriter.Instrument.Indexed.{indices, IsIndexed, IsInside, IsTarget}
use capnpc_wasm.Rewriter.Instrument.Body.{function_body}
use capnpc_wasm.Rewriter.Instrument.Reference.{rewritten_body}
use capnpc_wasm.Rewriter.Instrument.Rewriting.Whole.{contents, function_body-rewritten_body}
use capnpc_wasm.Rewriter.Instrument.Indexed.Main.{
  IsFinished, all_sections-IsFinished, instrument-ne-stuck,
}
use capnpc_wasm.Rewriter.Instrument.Indexed.Targets.{
  references_distinct, IsUndeclared, reference_refused_iff,
}
use capnpc_wasm.Rewriter.Instrument.Main.{start_state, all_sections, instrument}

-- A type, the import a.b, one function, a table, a memory of one page, an element that is the import,
-- and a body with a loop that calls the import.
abbrev small : List ℕ
small =
    header
    ++ (1 ∷ 4 ∷ 1 ∷ 96 ∷ 0 ∷ 0 ∷ 2 ∷ 7 ∷ 1 ∷ 1 ∷ 97 ∷ 1 ∷ 98 ∷ 0 ∷ 0 ∷ 3 ∷ 2 ∷ 1 ∷ 0 ∷ 4 ∷ 4 ∷ 1
        ∷ 112 ∷ 0 ∷ 1 ∷ 5 ∷ 4 ∷ 1 ∷ 1 ∷ 1 ∷ 2 ∷ 9 ∷ 7 ∷ 1 ∷ 0 ∷ 65 ∷ 0 ∷ 11 ∷ 1 ∷ 0 ∷ 10 ∷ 9 ∷ 1 ∷ 7
        ∷ 0 ∷ 3 ∷ 64 ∷ 16 ∷ 0 ∷ 11 ∷ 11 ∷ [])

-- The module with the bound and the checks, one for the loop and one for the call, and a thunk that is
-- in the element's place and declared.
abbrev small_instrumented : List ℕ
small_instrumented =
    (0 ∷ 97 ∷ 115 ∷ 109 ∷ 1 ∷ 0 ∷ 0 ∷ 0 ∷ 1 ∷ 8 ∷ 2 ∷ 96 ∷ 0 ∷ 0 ∷ 96 ∷ 0 ∷ 1 ∷ 127 ∷ 2 ∷ 30 ∷ 2 ∷ 1
      ∷ 97 ∷ 1 ∷ 98 ∷ 0 ∷ 0 ∷ 10 ∷ 99 ∷ 97 ∷ 112 ∷ 110 ∷ 112 ∷ 95 ∷ 119 ∷ 97 ∷ 115 ∷ 109 ∷ 9 ∷ 105
      ∷ 110 ∷ 116 ∷ 101 ∷ 114 ∷ 114 ∷ 117 ∷ 112 ∷ 116 ∷ 0 ∷ 1 ∷ 3 ∷ 3 ∷ 2 ∷ 0 ∷ 0 ∷ 4 ∷ 4 ∷ 1 ∷ 112
      ∷ 0 ∷ 1 ∷ 5 ∷ 4 ∷ 1 ∷ 1 ∷ 1 ∷ 2 ∷ 6 ∷ 7 ∷ 1 ∷ 127 ∷ 1 ∷ 65 ∷ 232 ∷ 7 ∷ 11 ∷ 7 ∷ 24 ∷ 1 ∷ 20
      ∷ 99 ∷ 97 ∷ 112 ∷ 110 ∷ 112 ∷ 95 ∷ 119 ∷ 97 ∷ 115 ∷ 109 ∷ 46 ∷ 99 ∷ 111 ∷ 117 ∷ 110 ∷ 116
      ∷ 100 ∷ 111 ∷ 119 ∷ 110 ∷ 3 ∷ 0 ∷ 9 ∷ 11 ∷ 2 ∷ 0 ∷ 65 ∷ 0 ∷ 11 ∷ 1 ∷ 3 ∷ 3 ∷ 0 ∷ 1 ∷ 3 ∷ 10
      ∷ 86 ∷ 2 ∷ 55 ∷ 0 ∷ 3 ∷ 64 ∷ 35 ∷ 0 ∷ 69 ∷ 4 ∷ 64 ∷ 16 ∷ 1 ∷ 4 ∷ 64 ∷ 0 ∷ 11 ∷ 65 ∷ 232 ∷ 7
      ∷ 36 ∷ 0 ∷ 11 ∷ 35 ∷ 0 ∷ 65 ∷ 1 ∷ 107 ∷ 36 ∷ 0 ∷ 16 ∷ 0 ∷ 35 ∷ 0 ∷ 69 ∷ 4 ∷ 64 ∷ 16 ∷ 1 ∷ 4
      ∷ 64 ∷ 0 ∷ 11 ∷ 65 ∷ 232 ∷ 7 ∷ 36 ∷ 0 ∷ 11 ∷ 35 ∷ 0 ∷ 65 ∷ 1 ∷ 107 ∷ 36 ∷ 0 ∷ 11 ∷ 11 ∷ 28 ∷ 0
      ∷ 16 ∷ 0 ∷ 35 ∷ 0 ∷ 69 ∷ 4 ∷ 64 ∷ 16 ∷ 1 ∷ 4 ∷ 64 ∷ 0 ∷ 11 ∷ 65 ∷ 232 ∷ 7 ∷ 36 ∷ 0 ∷ 11 ∷ 35
      ∷ 0 ∷ 65 ∷ 1 ∷ 107 ∷ 36 ∷ 0 ∷ 11 ∷ [])

instrument_small :
    instrument (uint8array small) 100 (finite false 1000 0)
    ≡ ok (record {
      bytes = small_instrumented;
      counts = record {
        functions = 1;
        entry_checks = 0;
        loop_checks = 1;
        import_checks = 1;
        bulk_checks = 0;
        thunks = 1;
        names = absent;
      };
    })
unfolding Reader.pure Reader.throw Reader.position Reader.end_position Reader.subarray Reader.◌>>=◌
    Reader.byte Reader.u32_loop Reader.u32 Reader.leb Reader.skip Reader.name Writer.flush
    Writer.byte Writer.bytes Writer.u32_loop Writer.u32 Writer.s32_loop Writer.s32 Writer.name
    Writer.append Writer.slot Writer.set_at Writer.place Writer.finish Writer.fill Writer.leb
    Types.heap_type Types.value_type Types.block_type Types.memory_argument Types.table_type
    Memory.mismatch Memory.module_bytes Memory.bounded_memory Checks.check_sequence Checks.ticks
    Pass.pure Pass.throw Pass.read Pass.out_of_fuel Pass.inside Pass.try Pass.throw_if Pass.get
    Pass.modify Pass.position Pass.end_position Pass.subarray Pass.◌>>=◌ Pass.times Pass.each
    Parts.shift Parts.reference Parts.framed Parts.emit Parts.verbatim Parts.done
    Parts.interrupt_type Parts.interrupt_import Parts.countdown_global Parts.declare_thunks
    Parts.seal Parts.countdown_entry Parts.missing_type Parts.missing_import Parts.missing_global
    Parts.missing_export Parts.synthesize_before Parts.constant_immediates Parts.constant_loop
    Parts.constant Sections.type_entry Sections.types Sections.import_function
    Sections.import_memory Sections.import_global Sections.import_tag Sections.import_entry
    Sections.imports Sections.function_entry Sections.function_types Sections.table_entry
    Sections.tables Sections.memory Sections.global_entry Sections.globals Sections.export_entry
    Sections.exports Sections.start Sections.element_offset Sections.element_expressions
    Sections.element_index Sections.element_indices Sections.element_segment Sections.elements
    Body.group Body.copy_until Body.charge Body.loop_header Body.call Body.function_reference
    Body.catch_clause Body.bulk_immediates Body.bulk Body.atomic_immediates Body.immediates
    Body.instruction Body.body_loop Body.head Body.function_body Code.code_entry Code.forward
    Code.thunk_body Code.code Code.function_name Code.local_name Code.local_names Code.subsection
    Code.names_loop Code.names Main.custom Main.section Main.one_section Main.sections
    Main.all_sections Main.instrument
instrument_small = refl

instrument-ne-stuck_example : instrument (uint8array small) 100 (finite false 1000 0) ≢ stuck
instrument-ne-stuck_example = instrument-ne-stuck (uint8array small) 100 (finite false 1000 0)

abbrev state_of : State → Result (Unit {0} × State × ℕ) → State
state_of s (ok (u, t, q)) = t
state_of s _ = s

abbrev whole_run : Result (Unit {0} × State × ℕ)
whole_run =
    all_sections (record { bytes = small; end = length small }) (start_state 100 1000 small) 8

abbrev last_state : State
last_state = state_of (start_state 100 1000 small) whole_run

small_run : whole_run ≡ ok (tt, last_state, length small)
unfolding Reader.pure Reader.throw Reader.position Reader.end_position Reader.subarray Reader.◌>>=◌
    Reader.byte Reader.u32_loop Reader.u32 Reader.leb Reader.skip Reader.name Writer.flush
    Writer.byte Writer.bytes Writer.u32_loop Writer.u32 Writer.s32_loop Writer.s32 Writer.name
    Writer.append Writer.slot Writer.set_at Writer.place Writer.finish Writer.fill Writer.leb
    Types.heap_type Types.value_type Types.block_type Types.memory_argument Types.table_type
    Memory.mismatch Memory.module_bytes Memory.bounded_memory Checks.check_sequence Checks.ticks
    Pass.pure Pass.throw Pass.read Pass.out_of_fuel Pass.inside Pass.try Pass.throw_if Pass.get
    Pass.modify Pass.position Pass.end_position Pass.subarray Pass.◌>>=◌ Pass.times Pass.each
    Parts.shift Parts.reference Parts.framed Parts.emit Parts.verbatim Parts.done
    Parts.interrupt_type Parts.interrupt_import Parts.countdown_global Parts.declare_thunks
    Parts.seal Parts.countdown_entry Parts.missing_type Parts.missing_import Parts.missing_global
    Parts.missing_export Parts.synthesize_before Parts.constant_immediates Parts.constant_loop
    Parts.constant Sections.type_entry Sections.types Sections.import_function
    Sections.import_memory Sections.import_global Sections.import_tag Sections.import_entry
    Sections.imports Sections.function_entry Sections.function_types Sections.table_entry
    Sections.tables Sections.memory Sections.global_entry Sections.globals Sections.export_entry
    Sections.exports Sections.start Sections.element_offset Sections.element_expressions
    Sections.element_index Sections.element_indices Sections.element_segment Sections.elements
    Body.group Body.copy_until Body.charge Body.loop_header Body.call Body.function_reference
    Body.catch_clause Body.bulk_immediates Body.bulk Body.atomic_immediates Body.immediates
    Body.instruction Body.body_loop Body.head Body.function_body Code.code_entry Code.forward
    Code.thunk_body Code.code Code.function_name Code.local_name Code.local_names Code.subsection
    Code.names_loop Code.names Main.custom Main.section Main.one_section Main.sections
    Main.all_sections Main.instrument
small_run = refl

all_sections-IsFinished_example : IsFinished last_state
all_sections-IsFinished_example =
    all_sections-IsFinished 100 1000 small (omega arith) last_state (length small) small_run

-- Two imported functions and a defined one, when the global section is read.
abbrev in_globals : State
in_globals = record (start_state 100 1000 small) {
  last_order = 7;
  type_count = 1;
  param_counts = 0 ∷ [];
  imported_functions = 2;
  import_types = 0 ∷ 0 ∷ [];
  defined_functions = 1;
  function_types = 0 ∷ [];
}

-- The same, with the thunks fixed or not.
abbrev in_globals_at : Bool → State
in_globals_at fixed = record in_globals { sealed = fixed }

in_globals_at-IsIndexed : (fixed : Bool) → IsIndexed (indices (in_globals_at fixed))
in_globals_at-IsIndexed fixed = record {
  typed = refl;
  imports_counted = refl;
  imports_typed = (omega arith, (omega arith, tt));
  functions_counted = refl;
  functions_typed = (omega arith, tt);
  exit_imported = tt;
  numbered = λ k index e. absurd (cc e);
  known = λ index thunk e. absurd (cc e);
  counted = λ e. refl;
}

in_globals_at-IsInside : (fixed : Bool) → IsInside 7 (in_globals_at fixed)
in_globals_at-IsInside fixed = (
  (
    in_globals_at-IsIndexed fixed,
    record {
      no_types = λ l. absurd (omega arith);
      no_functions = λ l. absurd (omega arith);
      no_thunks = λ l. absurd (omega arith);
    },
  ),
  refl,
)

abbrev one_thunk : State
one_thunk = record in_globals { thunk_of = (0, 4) ∷ []; thunk_imports = 0 ∷ [] }

abbrev two_thunks : State
two_thunks = record in_globals { thunk_of = (1, 5) ∷ (0, 4) ∷ []; thunk_imports = 0 ∷ 1 ∷ [] }

abbrev any_reader : Reader
any_reader = record { bytes = small; end = length small }

first_reference : reference 0 any_reader in_globals 8 ≡ ok (4, one_thunk, 8)
unfolding reference Pass.◌>>=◌
first_reference = refl

second_reference : reference 1 any_reader one_thunk 8 ≡ ok (5, two_thunks, 8)
unfolding reference Pass.◌>>=◌
second_reference = refl

references_distinct_example :
    (◌≡◌ {A = ℕ} 4 5 ↔ ◌≡◌ {A = ℕ} 0 1)
    × ◌≢◌ {A = ℕ} 4 2
    × ◌≢◌ {A = ℕ} 5 2
    × (4 < 2 + 1 + 1 + 2)
    × (5 < 2 + 1 + 1 + 2)
references_distinct_example =
    references_distinct 7 0 1 any_reader any_reader in_globals one_thunk two_thunks 8 8 8 8 4 5
      (omega arith) (omega arith) (omega arith) (in_globals_at-IsInside false) (omega arith)
      (omega arith) first_reference second_reference

-- The thunks have been fixed, and there is none.
abbrev sealed_early : State
sealed_early = in_globals_at true

abbrev undeclared_reference : Error
undeclared_reference = type_error "undeclared Wasm function reference"

refused_reference : reference 0 any_reader sealed_early 8 ≡ err undeclared_reference
unfolding reference Pass.◌>>=◌
refused_reference = refl

reference_refused_iff_example :
    ((reference 0 any_reader sealed_early 8 ≡ err undeclared_reference) ↔ (
      IsUndeclared 0 sealed_early
      × (undeclared_reference ≡ type_error "undeclared Wasm function reference")))
    × (¬ IsUndeclared 0 sealed_early
        → (t : ℕ) × (s' : State) × (q : ℕ) × (reference 0 any_reader sealed_early 8 ≡ ok (t, s', q))
          × IsTarget (indices s') 0 t)
reference_refused_iff_example =
    reference_refused_iff 7 0 any_reader sealed_early 8 undeclared_reference (omega arith)
      (omega arith) (in_globals_at-IsInside true)

-- A body whose loop calls an import and copies memory.
abbrev body_bytes : List ℕ
body_bytes = 0 ∷ 0x03 ∷ 0x40 ∷ 0x10 ∷ 0 ∷ 0x20 ∷ 0 ∷ 0xfc ∷ 10 ∷ 0 ∷ 0 ∷ 0x10 ∷ 2 ∷ 0x0b ∷ 0x0b ∷ []

abbrev body_reader : Reader
body_reader = record { bytes = body_bytes; end = length body_bytes }

function_body-rewritten_body_example :
    contents (function_body 0 (1 ∷ []) body_reader in_globals 0)
    ≡ rewritten_body 0 (1 ∷ []) body_reader in_globals 0
function_body-rewritten_body_example =
    function_body-rewritten_body 0 (1 ∷ []) body_reader in_globals 0 (omega arith)
