-- ===== src/Rewriter/Instrument/Indexed/Code.antt =====
-- The code section and the name section in `instrument` of sdk/typescript/rewriter.ts, on the index
-- tables.
use capnpc_wasm.Common.{ℕ, zero, suc, ◌+◌, Option, none, some, List, ◌-◌, arith}
use capnpc_wasm.Rewriter.Writer.{Writer}
use capnpc_wasm.Rewriter.Instrument.Pass.{State, pure}
use capnpc_wasm.Rewriter.Instrument.Code.{
  code_entry, code, function_name, local_name, local_names, subsection, complete, add_subsection,
  names_loop, names,
}
use capnpc_wasm.Rewriter.Instrument.Keeps.{
  Keeps, Keeps-pure, Keeps-throw_if, Keeps-read, Keeps-bind, Keeps-if, Keeps-get, Keeps-modify,
  Keeps-position, Keeps-end_position, Keeps-subarray, Keeps-inside, Keeps-times, KeepsFor,
  KeepsFor-any, KeepsFor-none, KeepsFor-bind, KeepsFor-byte, KeepsFor-if, KeepsFor-try,
  Keeps-rounds,
}
use capnpc_wasm.Rewriter.Instrument.Reads.{IsWithin-u32, IsWithin-skip, IsWithin-name}
use capnpc_wasm.Rewriter.Instrument.Indexed.{IsInside}
use capnpc_wasm.Rewriter.Instrument.Indexed.Body.{function_body-Keeps}
use capnpc_wasm.Rewriter.Instrument.Indexed.Sections.{emit-Keeps, done-Keeps}

pub code_entry-Keeps :
    (check : List ℕ) (entry : ℕ × Writer) → Keeps (IsInside 12) (code_entry check entry)
unfolding code_entry
code_entry-Keeps check entry = Keeps-bind _ _ (Keeps-read _ IsWithin-u32) λ size.
    Keeps-bind _ _ Keeps-position λ start. Keeps-bind _ _ (Keeps-read _ (IsWithin-skip size)) λ u.
      Keeps-bind _ _ Keeps-get λ s.
        Keeps-bind _ _
          (Keeps-inside start (start + size) _ (omega arith)
            (function_body-Keeps 12 (omega arith) _ check))
          λ body. Keeps-pure _

pub code-Keeps : Keeps (IsInside 12) code
unfolding code
code-Keeps = Keeps-bind _ _ Keeps-get λ s. Keeps-bind _ _ (Keeps-read _ IsWithin-u32) λ count.
    Keeps-bind _ _ (Keeps-throw_if _ _) λ u. Keeps-bind _ _ (Keeps-modify _ λ s h. h) λ u.
      Keeps-bind _ _ (Keeps-times count _ (code_entry-Keeps _) _) λ bodies.
        Keeps-bind _ _ (done-Keeps 12 _) λ u.
          Keeps-bind _ _ Keeps-get
            λ s'. Keeps-bind _ _ (Keeps-modify _ λ s h. h) λ u. emit-Keeps 12 10 _

module _ {P : State → Type 0} where
  function_name-Keeps : (rewritten : Writer) → Keeps P (function_name rewritten)
  unfolding function_name
  function_name-Keeps rewritten = Keeps-bind _ _ (Keeps-read _ IsWithin-u32) λ index.
      Keeps-bind _ _ Keeps-get λ s. Keeps-bind _ _ Keeps-position λ start.
        Keeps-bind _ _ (Keeps-read _ IsWithin-name) λ text.
          Keeps-bind _ _ Keeps-position
            λ end. Keeps-bind _ _ (Keeps-subarray start end) λ part. Keeps-pure _

  local_name-Keeps : Keeps P local_name
  unfolding local_name
  local_name-Keeps =
      Keeps-bind _ _ (Keeps-read _ IsWithin-u32)
        λ index. Keeps-bind _ _ (Keeps-read _ IsWithin-name) λ text. Keeps-pure tt

  local_names-Keeps : (rewritten : Writer) → Keeps P (local_names rewritten)
  unfolding local_names
  local_names-Keeps rewritten = Keeps-bind _ _ (Keeps-read _ IsWithin-u32) λ index.
      Keeps-bind _ _ Keeps-get λ s. Keeps-bind _ _ Keeps-position λ start.
        Keeps-bind _ _ (Keeps-read _ IsWithin-u32) λ locals.
          Keeps-bind _ _ (Keeps-times locals _ (λ u. local_name-Keeps) tt) λ u.
            Keeps-bind _ _ Keeps-position
              λ end. Keeps-bind _ _ (Keeps-subarray start end) λ part. Keeps-pure _

  subsection-Keeps : (id : ℕ) → Keeps P (subsection id)
  unfolding subsection
  subsection-Keeps id =
      Keeps-if _ _ _
        (Keeps-bind _ _ (Keeps-read _ IsWithin-u32) λ count.
          Keeps-bind _ _ (Keeps-times count _ function_name-Keeps _) λ rewritten. Keeps-pure _)
        (Keeps-if _ _ _
          (Keeps-bind _ _ (Keeps-read _ IsWithin-u32) λ count.
            Keeps-bind _ _ (Keeps-times count _ local_names-Keeps _) λ rewritten. Keeps-pure _)
          (Keeps-if _ _ _
            (Keeps-bind _ _ Keeps-position λ start. Keeps-bind _ _ Keeps-end_position λ end.
              Keeps-bind _ _ (Keeps-read _ (IsWithin-skip (end - start)))
                λ u. Keeps-bind _ _ (Keeps-subarray start end) λ part. Keeps-pure _)
            (Keeps-pure none)))

  complete-Keeps : (found : Option Writer) → Keeps P (complete found)
  complete-Keeps none = Keeps-pure none
  complete-Keeps (some rewritten) =
      Keeps-bind _ _ Keeps-position λ at. Keeps-bind _ _ Keeps-end_position λ end. Keeps-pure _

  names_loop-Keeps : (n : ℕ) (payload : Writer) → KeepsFor P n (names_loop n payload)
  unfolding names_loop
  names_loop-Keeps zero payload = KeepsFor-none _
  names_loop-Keeps (suc n) payload = KeepsFor-bind _ _ _ (KeepsFor-any _ _ Keeps-position) λ at.
      KeepsFor-bind _ _ _ (KeepsFor-any _ _ Keeps-end_position) λ end.
        KeepsFor-if _ _ _ _ (KeepsFor-any _ _ (Keeps-pure _)) (
          KeepsFor-byte n _ λ id.
            KeepsFor-bind n _ _ (KeepsFor-any n _ (Keeps-read _ IsWithin-u32)) λ size.
              KeepsFor-bind n _ _ (KeepsFor-any n _ Keeps-position) λ start.
                KeepsFor-if n _ _ _ (KeepsFor-any n _ (Keeps-pure none)) (
                  KeepsFor-bind n _ _ (KeepsFor-any n _ (Keeps-read _ (IsWithin-skip size))) λ u.
                    KeepsFor-bind n _ _
                      (KeepsFor-any n _ (
                        Keeps-inside start (start + size) _ (omega arith)
                          (Keeps-bind _ _ (subsection-Keeps id) complete-Keeps)))
                      λ part.
                        elim part
                          as (λ k. KeepsFor {A = Option Writer} P n (elim k [
                            | none ↦ pure none
                            | some rewritten ↦ names_loop n (add_subsection id rewritten payload)
                          ])) [
                            | none ↦ KeepsFor-any n _ (Keeps-pure none)
                            | some rewritten ↦ names_loop-Keeps n _
                          ]))

  pub names-Keeps : Keeps P names
  unfolding names
  names-Keeps = Keeps-bind _ _ Keeps-get λ s. Keeps-rounds _ λ end.
      KeepsFor-if _ _ _ _ (KeepsFor-any _ _ (Keeps-pure none))
        (KeepsFor-try _ _ (names_loop-Keeps (suc end) _))
