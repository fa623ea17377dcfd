-- ===== src/Rewriter/Instrument/Indexed/Parts.antt =====
-- The shared inner functions of `instrument` in sdk/typescript/rewriter.ts, on the index tables.
use capnpc_wasm.Common.{
  ℕ, zero, suc, ◌≤◌, ◌≡◌, refl, subst, Bool, true, false, Option, none, some, String, arith, ltb,
  if◌then◌else◌, length,
}
use capnpc_wasm.Rewriter.Writer.{Writer}
use capnpc_wasm.Rewriter.Instrument.Pass.{State, Functions}
use capnpc_wasm.Rewriter.Instrument.Parts.{
  reference, emit, emit_to, verbatim, done, declared_elements, fill_functions, seal, missing_type,
  missing_import, missing_global, missing_export, synthesize_before, constant_immediates,
  constant_loop, constant,
}
use capnpc_wasm.Rewriter.Instrument.Triple.{
  Lands-weaken, Triple, Triple-pure, Triple-bind, Triple-throw_if, Triple-modify, Triple-position,
  Triple-end_position, Triple-subarray, Triple-start, Triple-pure-at, Triple-if-known,
}
use capnpc_wasm.Rewriter.Instrument.Keeps.{
  KeepsFor, KeepsFor-any, KeepsFor-none, KeepsFor-bind, KeepsFor-byte, KeepsFor-if, Keeps-rounds,
  Keeps, Keeps-pure, Keeps-throw, Keeps-throw_if, Keeps-read, Keeps-bind, Keeps-if, Keeps-position,
  Keeps-subarray,
}
use capnpc_wasm.Rewriter.Instrument.Reads.{
  IsWithin-u32, IsWithin-leb, IsWithin-skip, IsWithin-heap_type,
}
use capnpc_wasm.Rewriter.Instrument.Indexed.{Indices, indices, IsInside, Referred, reference-Triple}

-- A condition on the tables.
module _ (F : Indices → Type 0) where
  abbrev P : State → Type 0
  P s = F (indices s)

  pub emit-Triple : (id : ℕ) (payload : Writer) → Triple P (emit id payload) (λ u. P)
  unfolding emit
  emit-Triple id payload = Triple-modify P P (emit_to id payload) λ s h. h

  pub verbatim-Triple : (start end : ℕ) → Triple P (verbatim start end) (λ u. P)
  unfolding verbatim
  verbatim-Triple start end =
      Triple-bind P (λ u. P) (λ u. P) _ _ (Triple-subarray P start end)
        λ part. Triple-pure P (λ u. P) _ λ s h. h

  pub done-Triple : (message : String) → Triple P (done message) (λ u. P)
  unfolding done
  done-Triple message =
      Triple-bind P (λ u. P) (λ u. P) _ _ (Triple-position P)
        λ at.
          Triple-bind P (λ u. P) (λ u. P) _ _ (Triple-end_position P) λ end. Triple-throw_if P _ _

  fill_functions-Triple : (f : Option Functions) → Triple P (fill_functions f) (λ u. P)
  fill_functions-Triple none = Triple-pure P (λ u. P) tt λ s h. h
  fill_functions-Triple (some f) =
      Triple-bind P (λ u. P) (λ u. P) _ _ (Triple-subarray P f.entries f.end)
        λ entries. Triple-modify P P _ λ s h. h

  chosen : (b : Bool) (s t : State) → P s → P t → P (if b then s else t)
  chosen true s t h k = h
  chosen false s t h k = k

  declared_elements-keeps : (s : State) → P s → P (declared_elements s)
  declared_elements-keeps s h = chosen _ _ _ h h

  missing_type-keeps : (order : ℕ) (s : State) → P s → P (missing_type order s)
  unfolding missing_type
  missing_type-keeps order s h = chosen _ _ _ h h

  missing_import-keeps : (order : ℕ) (s : State) → P s → P (missing_import order s)
  unfolding missing_import
  missing_import-keeps order s h = chosen _ _ _ h h

  missing_global-keeps : (order : ℕ) (s : State) → P s → P (missing_global order s)
  unfolding missing_global
  missing_global-keeps order s h = chosen _ _ _ h h

  missing_export-keeps : (order : ℕ) (s : State) → P s → P (missing_export order s)
  unfolding missing_export
  missing_export-keeps order s h = chosen _ _ _ h h

-- The tables with the thunks fixed.
abbrev pub sealing : Indices → Indices
sealing i = record i { sealed = true; thunks = length i.thunk_imports }

module _ (F G : Indices → Type 0) (already : (i : Indices) → F i → i.sealed ≡ true → G i)
    (now : (i : Indices) → F i → G (sealing i)) where
  abbrev Before : State → Type 0
  Before s = F (indices s)

  abbrev After : Unit {0} → State → Type 0
  After u s = G (indices s)

  pub seal-Triple : Triple Before seal After
  unfolding seal
  seal-Triple = Triple-start Before After _ λ s h.
      Triple-if-known (λ t. s ≡ t) After s.sealed _ _
        (λ e. Triple-pure-at s After tt (already (indices s) h e))
        (λ e.
          Triple-bind _ After After _ _
            (Triple-modify (λ t. s ≡ t) (λ t. G (indices t)) _
              λ t same. declared_elements-keeps G _ (now (indices t) (subst Before same h)))
            λ u. fill_functions-Triple G s.functions)

  -- Past the element section the thunks are fixed.
  pub synthesize_before-Triple :
      (order : ℕ)
      → ((i : Indices) → F i → order ≤ 10 → G i)
      → Triple Before (synthesize_before order) After
  unfolding synthesize_before
  synthesize_before-Triple order early =
      Triple-bind Before (λ u. Before) After _ _
        (Triple-modify Before Before _ λ s h. missing_type-keeps F order s h)
        λ u.
          Triple-bind Before (λ u. Before) After _ _
            (Triple-modify Before Before _ λ s h. missing_import-keeps F order s h)
            λ u.
              Triple-bind Before (λ u. Before) After _ _
                (Triple-modify Before Before _ λ s h. missing_global-keeps F order s h)
                λ u.
                  Triple-bind Before (λ u. Before) After _ _
                    (Triple-modify Before Before _ λ s h. missing_export-keeps F order s h)
                    λ u.
                      Triple-if-known Before After (ltb 10 order) _ _ (λ e. seal-Triple)
                        (λ e. Triple-pure Before After tt λ s h. early (indices s) h (ground arith))

-- A constant expression inside a section that may refer to functions.
module _ {P : State → Type 0} where
  constant_immediates-Keeps : (op : ℕ) → Keeps P (constant_immediates op)
  unfolding constant_immediates
  constant_immediates-Keeps op = Keeps-if _ _ _ (Keeps-read _ (IsWithin-leb 5)) (
      Keeps-if _ _ _ (Keeps-read _ (IsWithin-leb 10)) (
        Keeps-if _ _ _ (Keeps-read _ (IsWithin-skip 4)) (
          Keeps-if _ _ _ (Keeps-read _ (IsWithin-skip 8)) (
            Keeps-if _ _ _ (Keeps-bind _ _ (Keeps-read _ IsWithin-u32) λ index. Keeps-pure tt) (
              Keeps-if _ _ _ (Keeps-read _ IsWithin-heap_type) (
                Keeps-if _ _ _ (Keeps-pure tt) (
                  Keeps-if _ _ _
                    (Keeps-bind _ _ (Keeps-read _ IsWithin-u32) λ code.
                      Keeps-bind _ _ (Keeps-throw_if _ _) λ u. Keeps-read _ (IsWithin-skip 16))
                    (Keeps-throw _))))))))

module _ (order : ℕ) (late : 7 ≤ order) where
  pub reference-Keeps : (index : ℕ) → Keeps (IsInside order) (reference index)
  reference-Keeps index = record {
    runs = λ r s p b h.
        Lands-weaken (Referred order late index s h) (λ a. IsInside order) r.end p _ (λ t s' k. k.0)
          ((reference-Triple order late index s h).runs r s p b refl);
  }

  constant_loop-Keeps :
      (n : ℕ) (payload : Writer) → KeepsFor (IsInside order) n (constant_loop n payload)
  unfolding constant_loop
  constant_loop-Keeps zero payload = KeepsFor-none _
  constant_loop-Keeps (suc n) payload =
      KeepsFor-bind _ _ _ (KeepsFor-any _ _ Keeps-position) λ start. KeepsFor-byte n _ λ op.
        KeepsFor-if n _ _ _ (KeepsFor-any n _ (Keeps-pure _)) (
          KeepsFor-if n _ _ _
            (KeepsFor-bind n _ _ (KeepsFor-any n _ (Keeps-read _ IsWithin-u32)) λ index.
              KeepsFor-bind n _ _ (KeepsFor-any n _ (reference-Keeps index))
                λ target. constant_loop-Keeps n _)
            (KeepsFor-bind n _ _ (KeepsFor-any n _ (constant_immediates-Keeps op)) λ u.
              KeepsFor-bind n _ _ (KeepsFor-any n _ Keeps-position) λ end.
                KeepsFor-bind n _ _ (KeepsFor-any n _ (Keeps-subarray start end))
                  λ part. constant_loop-Keeps n _))

  pub constant-Keeps : (payload : Writer) → Keeps (IsInside order) (constant payload)
  unfolding constant
  constant-Keeps payload = Keeps-rounds _ λ end. constant_loop-Keeps (suc end) payload
