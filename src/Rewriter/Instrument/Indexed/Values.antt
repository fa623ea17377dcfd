-- ===== src/Rewriter/Instrument/Indexed/Values.antt =====
-- The handlers of the table, memory, global, export, start and element sections in `instrument` of
-- sdk/typescript/rewriter.ts, on the index tables.
use capnpc_wasm.Common.{ℕ, ◌≤◌, refl, arith}
use capnpc_wasm.Rewriter.Writer.{Writer}
use capnpc_wasm.Rewriter.Instrument.Sections.{
  tables, memory, global_entry, globals, export_entry, exports, start, element_offset,
  element_expressions, element_index, element_indices, element_segment, elements,
}
use capnpc_wasm.Rewriter.Instrument.Keeps.{
  Keeps, Keeps-pure, Keeps-throw_if, Keeps-read, Keeps-bind, Keeps-if, Keeps-get, Keeps-modify,
  Keeps-position, Keeps-end_position, Keeps-subarray, Keeps-times,
}
use capnpc_wasm.Rewriter.Instrument.Reads.{
  IsWithin-byte, IsWithin-u32, IsWithin-name, IsWithin-value_type, IsWithin-bounded_memory,
}
use capnpc_wasm.Rewriter.Instrument.Indexed.{Indices, TablesInside, IsInside}
use capnpc_wasm.Rewriter.Instrument.Indexed.Parts.{
  sealing, seal-Triple, reference-Keeps, constant-Keeps,
}
use capnpc_wasm.Rewriter.Instrument.Indexed.Sections.{
  emit-Keeps, done-Keeps, verbatim-Keeps, mutability-Keeps, table_entry-Keeps,
}

pub tables-Keeps : Keeps (IsInside 4) tables
unfolding tables
tables-Keeps = Keeps-bind _ _ Keeps-position λ start.
    Keeps-bind _ _ (Keeps-read _ IsWithin-u32) λ count.
      Keeps-bind _ _ (Keeps-times count _ (λ u. table_entry-Keeps) tt) λ u.
        Keeps-bind _ _ (done-Keeps 4 _) λ u.
          Keeps-bind _ _ Keeps-end_position
            λ end. Keeps-bind _ _ (verbatim-Keeps 4 start end) λ payload. emit-Keeps 4 4 payload

pub memory-Keeps : Keeps (IsInside 5) memory
unfolding memory
memory-Keeps = Keeps-bind _ _ (Keeps-modify _ λ s h. h) λ u. Keeps-bind _ _ Keeps-get λ s.
    Keeps-bind _ _ (Keeps-read _ (IsWithin-bounded_memory s.maximum)) λ payload. emit-Keeps 5 5 _

pub start-Keeps : Keeps (IsInside 9) start
unfolding start
start-Keeps =
    Keeps-bind _ _ (Keeps-read _ IsWithin-u32)
      λ index. Keeps-bind _ _ Keeps-get λ s. Keeps-bind _ _ (done-Keeps 9 _) λ u. emit-Keeps 9 8 _

module _ (order : ℕ) (late : 7 ≤ order) where
  global_entry-Keeps : (payload : Writer) → Keeps (IsInside order) (global_entry payload)
  unfolding global_entry
  global_entry-Keeps payload = Keeps-bind _ _ Keeps-position λ start.
      Keeps-bind _ _ (Keeps-read _ IsWithin-value_type) λ u. Keeps-bind _ _ mutability-Keeps λ u.
        Keeps-bind _ _ Keeps-position
          λ end. Keeps-bind _ _ (Keeps-subarray start end) λ part. constant-Keeps order late _

  export_entry-Keeps : (payload : Writer) → Keeps (IsInside order) (export_entry payload)
  unfolding export_entry
  export_entry-Keeps payload = Keeps-bind _ _ Keeps-position λ start.
      Keeps-bind _ _ (Keeps-read _ IsWithin-name) λ name. Keeps-bind _ _ (Keeps-throw_if _ _) λ u.
        Keeps-bind _ _ Keeps-position λ end. Keeps-bind _ _ (Keeps-subarray start end) λ part.
          Keeps-bind _ _ (Keeps-read _ IsWithin-byte) λ kind.
            Keeps-bind _ _ (Keeps-throw_if _ _) λ u.
              Keeps-bind _ _ (Keeps-read _ IsWithin-u32) λ index.
                Keeps-bind _ _
                  (Keeps-if _ _ _ (reference-Keeps order late index) (Keeps-pure index))
                  λ thunk. Keeps-bind _ _ Keeps-get λ s. Keeps-pure _

  element_offset-Keeps :
      (flags : ℕ) (segments : Writer) → Keeps (IsInside order) (element_offset flags segments)
  unfolding element_offset
  element_offset-Keeps flags segments = Keeps-if _ _ _ (Keeps-pure segments) (
      Keeps-bind _ _
        (Keeps-if _ _ _ (Keeps-bind _ _ (Keeps-read _ IsWithin-u32) λ table. Keeps-pure _)
          (Keeps-pure segments))
        λ segments'. constant-Keeps order late segments')

  element_expressions-Keeps :
      (flags : ℕ) (segments : Writer) → Keeps (IsInside order) (element_expressions flags segments)
  unfolding element_expressions
  element_expressions-Keeps flags segments = Keeps-bind _ _ Keeps-position λ begin.
      Keeps-bind _ _
        (Keeps-if _ _ _
          (Keeps-bind _ _ (Keeps-read _ IsWithin-value_type) λ u.
            Keeps-bind _ _ Keeps-position
              λ end. Keeps-bind _ _ (Keeps-subarray begin end) λ part. Keeps-pure _)
          (Keeps-pure segments))
        λ segments'.
          Keeps-bind _ _ (Keeps-read _ IsWithin-u32)
            λ count. Keeps-times count _ (λ w. constant-Keeps order late w) _

  element_index-Keeps : (segments : Writer) → Keeps (IsInside order) (element_index segments)
  unfolding element_index
  element_index-Keeps segments =
      Keeps-bind _ _ (Keeps-read _ IsWithin-u32)
        λ index. Keeps-bind _ _ (reference-Keeps order late index) λ target. Keeps-pure _

  element_indices-Keeps :
      (flags : ℕ) (segments : Writer) → Keeps (IsInside order) (element_indices flags segments)
  unfolding element_indices
  element_indices-Keeps flags segments =
      Keeps-bind _ _
        (Keeps-if _ _ _
          (Keeps-bind _ _ (Keeps-read _ IsWithin-byte)
            λ kind. Keeps-bind _ _ (Keeps-throw_if _ _) λ u. Keeps-pure _)
          (Keeps-pure segments))
        λ segments'.
          Keeps-bind _ _ (Keeps-read _ IsWithin-u32)
            λ count. Keeps-times count _ element_index-Keeps _

  element_segment-Keeps : (segments : Writer) → Keeps (IsInside order) (element_segment segments)
  unfolding element_segment
  element_segment-Keeps segments = Keeps-bind _ _ (Keeps-read _ IsWithin-u32) λ flags.
      Keeps-bind _ _ (Keeps-throw_if _ _) λ u.
        Keeps-bind _ _ (element_offset-Keeps flags _) λ segments'.
          Keeps-if _ _ _ (element_expressions-Keeps flags segments')
            (element_indices-Keeps flags segments')

pub globals-Keeps : Keeps (IsInside 7) globals
unfolding globals
globals-Keeps = Keeps-bind _ _ (Keeps-read _ IsWithin-u32) λ count.
    Keeps-bind _ _ (Keeps-times count _ (global_entry-Keeps 7 (omega arith)) _) λ payload.
      Keeps-bind _ _ (done-Keeps 7 _) λ u. Keeps-bind _ _ (Keeps-modify _ λ s h. h) λ u.
        Keeps-bind _ _ Keeps-get λ s. Keeps-bind _ _ (Keeps-modify _ λ s h. h) λ u. emit-Keeps 7 6 _

pub exports-Keeps : Keeps (IsInside 8) exports
unfolding exports
exports-Keeps = Keeps-bind _ _ (Keeps-read _ IsWithin-u32) λ count.
    Keeps-bind _ _ (Keeps-times count _ (export_entry-Keeps 8 (omega arith)) _) λ payload.
      Keeps-bind _ _ (done-Keeps 8 _) λ u.
        Keeps-bind _ _ Keeps-get λ s. Keeps-bind _ _ (Keeps-modify _ λ s h. h) λ u. emit-Keeps 8 7 _

-- Fixing the thunks counts them.
pub sealing-Inside :
    (order : ℕ) (i : Indices) → TablesInside order i → TablesInside order (sealing i)
sealing-Inside order i ((h, f), o) = (
  (
    record {
      typed = h.typed;
      imports_counted = h.imports_counted;
      imports_typed = h.imports_typed;
      functions_counted = h.functions_counted;
      functions_typed = h.functions_typed;
      exit_imported = h.exit_imported;
      numbered = h.numbered;
      known = h.known;
      counted = λ e. refl;
    },
    record { no_types = f.no_types; no_functions = f.no_functions; no_thunks = f.no_thunks },
  ),
  o,
)

pub elements-Keeps : Keeps (IsInside 10) elements
unfolding elements
elements-Keeps = Keeps-bind _ _ (Keeps-read _ IsWithin-u32) λ count.
    Keeps-bind _ _ (Keeps-times count _ (element_segment-Keeps 10 (omega arith)) _) λ segments.
      Keeps-bind _ _ (done-Keeps 10 _) λ u. Keeps-bind _ _ (Keeps-modify _ λ s h. h) λ u.
        Keeps-bind _ _ Keeps-get λ s.
          Keeps-bind _ _ (emit-Keeps 10 9 _)
            λ u. seal-Triple (TablesInside 10) (TablesInside 10) (λ i h e. h) (sealing-Inside 10)
