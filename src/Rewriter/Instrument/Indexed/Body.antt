-- ===== src/Rewriter/Instrument/Indexed/Body.antt =====
-- `functionBody` of sdk/typescript/rewriter.ts, on the index tables.
use capnpc_wasm.Common.{ℕ, zero, suc, ◌≤◌, Bool, true, false, Option, none, some, List}
use capnpc_wasm.Rewriter.Writer.{Writer}
use capnpc_wasm.Rewriter.Instrument.Pass.{State}
use capnpc_wasm.Rewriter.Instrument.Body.{
  Body, u32_only, group, copy_until, loop_header, import_call, call, function_reference,
  catch_clause, bulk_immediates, unit_of, charge_bulk, bulk, atomic_immediates, immediates,
  instruction, body_loop, entry_check, function_body,
}
use capnpc_wasm.Rewriter.Instrument.Keeps.{
  Keeps, Keeps-pure, Keeps-throw, Keeps-throw_if, Keeps-read, Keeps-bind, Keeps-if, Keeps-get,
  Keeps-modify, Keeps-position, Keeps-end_position, Keeps-subarray, Keeps-times, KeepsFor,
  KeepsFor-any, KeepsFor-none, KeepsFor-bind, KeepsFor-byte, KeepsFor-if, Keeps-rounds,
}
use capnpc_wasm.Rewriter.Instrument.Reads.{
  IsWithin-byte, IsWithin-u32, IsWithin-leb, IsWithin-skip, IsWithin-s32, IsWithin-value_type,
  IsWithin-heap_type, IsWithin-block_type, IsWithin-memory_argument, IsWithin-simd_immediates,
}
use capnpc_wasm.Rewriter.Instrument.Indexed.{IsInside}
use capnpc_wasm.Rewriter.Instrument.Indexed.Parts.{reference-Keeps}
use capnpc_wasm.Rewriter.Instrument.Indexed.Sections.{value_types-Keeps}

module _ {P : State → Type 0} where
  pub u32_only-Keeps : Keeps P u32_only
  u32_only-Keeps = Keeps-bind _ _ (Keeps-read _ IsWithin-u32) λ index. Keeps-pure tt

  pub group-Keeps : (declared : ℕ) → Keeps P (group declared)
  unfolding group
  group-Keeps declared =
      Keeps-bind _ _ (Keeps-read _ IsWithin-u32)
        λ count. Keeps-bind _ _ (Keeps-read _ IsWithin-value_type) λ u. Keeps-pure _

  copy_until-Keeps : (end : ℕ) (b : Body) → Keeps P (copy_until end b)
  unfolding copy_until
  copy_until-Keeps end b = Keeps-bind _ _ (Keeps-subarray b.from end) λ part. Keeps-pure _

  catch_clause-Keeps : Keeps P catch_clause
  unfolding catch_clause
  catch_clause-Keeps = Keeps-bind _ _ (Keeps-read _ IsWithin-byte) λ kind.
      Keeps-bind _ _ (Keeps-throw_if _ _)
        λ u. Keeps-bind _ _ (Keeps-if _ _ _ u32_only-Keeps (Keeps-pure tt)) λ u. u32_only-Keeps

  pub bulk_immediates-Keeps : (c : ℕ) → Keeps P (bulk_immediates c)
  unfolding bulk_immediates
  bulk_immediates-Keeps c = Keeps-if _ _ _ (Keeps-pure tt) (
      Keeps-if _ _ _ (Keeps-bind _ _ u32_only-Keeps λ u. u32_only-Keeps)
        (Keeps-if _ _ _ u32_only-Keeps (Keeps-throw _)))

  atomic_immediates-Keeps : (c : ℕ) → Keeps P (atomic_immediates c)
  unfolding atomic_immediates
  atomic_immediates-Keeps c =
      Keeps-if _ _ _ (Keeps-read _ (IsWithin-skip 1))
        (Keeps-if _ _ _ (Keeps-read _ IsWithin-memory_argument) (Keeps-throw _))

  pub immediates-Keeps : (op : ℕ) → Keeps P (immediates op)
  unfolding immediates
  immediates-Keeps op = Keeps-if _ _ _ (Keeps-pure tt) (
      Keeps-if _ _ _ (Keeps-read _ IsWithin-block_type) (
        Keeps-if _ _ _ u32_only-Keeps (
          Keeps-if _ _ _
            (Keeps-bind _ _ (Keeps-read _ IsWithin-u32)
              λ count. Keeps-times (suc count) _ (λ u. u32_only-Keeps) tt)
            (Keeps-if _ _ _
              (Keeps-bind _ _ (Keeps-read _ IsWithin-u32) λ count. value_types-Keeps count)
              (Keeps-if _ _ _
                (Keeps-bind _ _ (Keeps-read _ IsWithin-block_type) λ u.
                  Keeps-bind _ _ (Keeps-read _ IsWithin-u32)
                    λ count. Keeps-times count _ (λ u. catch_clause-Keeps) tt)
                (Keeps-if _ _ _ (Keeps-read _ (IsWithin-leb 10)) (
                  Keeps-if _ _ _ (Keeps-read _ (IsWithin-skip 4)) (
                    Keeps-if _ _ _ (Keeps-read _ (IsWithin-skip 8)) (
                      Keeps-if _ _ _ (Keeps-read _ IsWithin-heap_type) (
                        Keeps-if _ _ _
                          (Keeps-bind _ _ (Keeps-read _ IsWithin-u32)
                            λ c. Keeps-read _ (IsWithin-simd_immediates c))
                          (Keeps-if _ _ _
                            (Keeps-bind _ _ (Keeps-read _ IsWithin-u32)
                              λ c. atomic_immediates-Keeps c)
                            (Keeps-if _ _ _ (Keeps-read _ IsWithin-memory_argument)
                              (Keeps-throw_if _ _)))))))))))))

module _ (order : ℕ) (late : 7 ≤ order) where
  loop_header-Keeps : (check : List ℕ) (b : Body) → Keeps (IsInside order) (loop_header check b)
  unfolding loop_header
  loop_header-Keeps check b = Keeps-bind _ _ (Keeps-read _ IsWithin-block_type) λ u.
      Keeps-bind _ _ Keeps-position λ here.
        Keeps-bind _ _ (copy_until-Keeps here b)
          λ copied. Keeps-bind _ _ (Keeps-modify _ λ s h. h) λ u. Keeps-pure _

  import_call-Keeps :
      (check : List ℕ) (op callee : ℕ) (b : Body)
      → Keeps (IsInside order) (import_call check op callee b)
  import_call-Keeps check op callee b = Keeps-bind _ _ Keeps-get λ s.
      Keeps-if _ _ _ (Keeps-pure _) (Keeps-bind _ _ (Keeps-modify _ λ s h. h) λ u. Keeps-pure _)

  call-Keeps : (check : List ℕ) (at op : ℕ) (b : Body) → Keeps (IsInside order) (call check at op b)
  unfolding call
  call-Keeps check at op b = Keeps-bind _ _ (Keeps-read _ IsWithin-u32) λ callee.
      Keeps-bind _ _ (copy_until-Keeps at b) λ copied. Keeps-bind _ _ Keeps-position λ here.
        Keeps-bind _ _ Keeps-get
          λ s. Keeps-if _ _ _ (Keeps-pure _) (import_call-Keeps check op callee _)

  function_reference-Keeps : (at : ℕ) (b : Body) → Keeps (IsInside order) (function_reference at b)
  unfolding function_reference
  function_reference-Keeps at b = Keeps-bind _ _ (Keeps-read _ IsWithin-u32) λ index.
      Keeps-bind _ _ (copy_until-Keeps at b) λ copied.
        Keeps-bind _ _ Keeps-position
          λ here. Keeps-bind _ _ (reference-Keeps order late index) λ target. Keeps-pure _

  charge_bulk-Keeps :
      (at scratch : ℕ) (operand unit : Option ℕ) (b : Body)
      → Keeps (IsInside order) (charge_bulk at scratch operand unit b)
  charge_bulk-Keeps at scratch operand none b = Keeps-pure b
  charge_bulk-Keeps at scratch operand (some unit) b = Keeps-if _ _ _ (Keeps-pure b) (
      Keeps-bind _ _ (copy_until-Keeps at b) λ copied.
        Keeps-bind _ _ Keeps-get λ s. Keeps-bind _ _ (Keeps-modify _ λ s h. h) λ u. Keeps-pure _)

  bulk-Keeps :
      (at scratch : ℕ) (operand : Option ℕ) (b : Body)
      → Keeps (IsInside order) (bulk at scratch operand b)
  unfolding bulk
  bulk-Keeps at scratch operand b = Keeps-bind _ _ (Keeps-read _ IsWithin-u32) λ c.
      Keeps-bind _ _ (bulk_immediates-Keeps c)
        λ u. charge_bulk-Keeps at scratch operand (unit_of c) b

  instruction-Keeps :
      (check : List ℕ) (scratch at op : ℕ) (operand : Option ℕ) (b : Body)
      → Keeps (IsInside order) (instruction check scratch at op operand b)
  unfolding instruction
  instruction-Keeps check scratch at op operand b = Keeps-if _ _ _ (loop_header-Keeps check b) (
      Keeps-if _ _ _ (call-Keeps check at op b) (
        Keeps-if _ _ _ (function_reference-Keeps at b) (
          Keeps-if _ _ _
            (Keeps-bind _ _ u32_only-Keeps λ u. Keeps-bind _ _ u32_only-Keeps λ u. Keeps-pure _)
            (Keeps-if _ _ _ (Keeps-bind _ _ u32_only-Keeps λ u. Keeps-pure _) (
              Keeps-if _ _ _ (Keeps-bind _ _ (Keeps-read _ IsWithin-s32) λ value. Keeps-pure _) (
                Keeps-if _ _ _ (bulk-Keeps at scratch operand b)
                  (Keeps-bind _ _ (immediates-Keeps op) λ u. Keeps-pure b)))))))

  body_loop-Keeps :
      (n : ℕ) (check : List ℕ) (scratch : ℕ) (b : Body)
      → KeepsFor (IsInside order) n (body_loop n check scratch b)
  unfolding body_loop
  body_loop-Keeps zero check scratch b = KeepsFor-none _
  body_loop-Keeps (suc n) check scratch b =
      KeepsFor-bind _ _ _ (KeepsFor-any _ _ Keeps-position) λ at.
        KeepsFor-bind _ _ _ (KeepsFor-any _ _ Keeps-end_position) λ end.
          KeepsFor-if _ _ _ _ (KeepsFor-any _ _ (Keeps-pure b)) (
            KeepsFor-byte n _ λ op.
              KeepsFor-bind n _ _
                (KeepsFor-any n _ (instruction-Keeps check scratch at op b.constant _))
                λ b'. body_loop-Keeps n check scratch b')

  entry_check-Keeps :
      (check : List ℕ) (guest : Bool) (w : Writer)
      → Keeps (IsInside order) (entry_check check guest w)
  entry_check-Keeps check false w = Keeps-pure w
  entry_check-Keeps check true w = Keeps-bind _ _ (Keeps-modify _ λ s h. h) λ u. Keeps-pure _

  pub function_body-Keeps :
      (type_ : ℕ) (check : List ℕ) → Keeps (IsInside order) (function_body type_ check)
  unfolding function_body
  function_body-Keeps type_ check = Keeps-bind _ _ (Keeps-read _ IsWithin-u32) λ groups.
      Keeps-bind _ _ Keeps-position λ groups_start.
        Keeps-bind _ _ (Keeps-times groups _ group-Keeps 0) λ declared.
          Keeps-bind _ _ Keeps-position λ groups_end. Keeps-bind _ _ (Keeps-subarray _ _) λ part.
            Keeps-bind _ _ Keeps-get λ s. Keeps-rounds _ λ end.
              KeepsFor-bind _ _ _ (body_loop-Keeps (suc end) check _ _) λ b. KeepsFor-any _ _ (
                Keeps-bind _ _ (copy_until-Keeps end b) λ b'.
                  Keeps-bind _ _ (Keeps-throw_if _ _)
                    λ u. Keeps-bind _ _ (entry_check-Keeps check _ _) λ w. Keeps-pure _)
