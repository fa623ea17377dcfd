-- ===== src/Rewriter/Instrument/Indexed/Entered.antt =====
-- The handler of each section of `instrument` in sdk/typescript/rewriter.ts, on the index tables.
use capnpc_wasm.Common.{
  ℕ, ◌+◌, ◌≡◌, refl, sym, ◌∙◌, subst, Option, none, some, arith, ◌==◌, if◌then◌else◌,
}
use capnpc_wasm.Rewriter.Writer.{Writer}
use capnpc_wasm.Rewriter.Instrument.Pass.{State, Pass, end_position, ◌>>=◌}
use capnpc_wasm.Rewriter.Instrument.Parts.{emit, verbatim}
use capnpc_wasm.Rewriter.Instrument.Main.{find_order, section_order, renamed, custom, section}
use capnpc_wasm.Rewriter.Instrument.Sections.{
  types, imports, function_types, tables, memory, globals, exports, start, elements,
}
use capnpc_wasm.Rewriter.Instrument.Code.{code}
use capnpc_wasm.Rewriter.Instrument.Triple.{Triple, Triple-if-known}
use capnpc_wasm.Rewriter.Instrument.Keeps.{
  Keeps, Keeps-pure, Keeps-read, Keeps-bind, Keeps-if, Keeps-modify, Keeps-end_position,
}
use capnpc_wasm.Rewriter.Instrument.Reads.{IsWithin-name}
use capnpc_wasm.Rewriter.Instrument.Indexed.{
  Indices, IsIndexed, IsFresh, indices, IsBetween, IsInside,
}
use capnpc_wasm.Rewriter.Instrument.Indexed.Parts.{emit-Triple, verbatim-Triple}
use capnpc_wasm.Rewriter.Instrument.Indexed.Sections.{
  TypesRead, types-Triple, imports-Keeps, FunctionsRead, function_types-Triple, emit-Keeps,
  verbatim-Keeps,
}
use capnpc_wasm.Rewriter.Instrument.Indexed.Values.{
  tables-Keeps, memory-Keeps, globals-Keeps, exports-Keeps, start-Keeps, elements-Keeps,
}
use capnpc_wasm.Rewriter.Instrument.Indexed.Code.{code-Keeps, names-Keeps}

-- The tables when a section of an order has just been entered.
abbrev pub TablesEntered : ℕ → Indices → Type 0
TablesEntered order i = (IsIndexed i × IsFresh order i) × (i.order ≡ order)

abbrev pub IsEntered : ℕ → State → Type 0
IsEntered order s = TablesEntered order (indices s)

abbrev pub TablesBetween : Indices → Type 0
TablesBetween i = IsIndexed i × IsFresh (i.order + 1) i

pub custom-Keeps : (begin : ℕ) → Keeps IsBetween (custom begin)
unfolding custom
custom-Keeps begin = Keeps-bind _ _ (Keeps-read _ IsWithin-name) λ name.
    Keeps-if _ _ _ (Keeps-bind _ _ names-Keeps λ fate. fated fate) (
      Keeps-if _ _ _
        (Keeps-bind _ _ Keeps-end_position λ end.
          Keeps-bind _ _ (verbatim-Triple TablesBetween begin end)
            λ payload. emit-Triple TablesBetween 0 payload)
        (Keeps-pure tt))
  where
    fated : (fate : Option Writer) → Keeps IsBetween (renamed fate)
    fated none = Keeps-modify _ λ s h. h
    fated (some payload) =
        Keeps-bind _ _ (Keeps-modify _ λ s h. h) λ u. emit-Triple TablesBetween 0 payload

-- The section's order is the one that the handlers ask for.
module _ (begin : ℕ) where
  entered-inside : (order : ℕ) (s : State) → IsEntered order s → IsInside order s
  entered-inside order s ((h, f), o) = (
    (
      h,
      record {
        no_types = λ l. f.no_types (omega (arith, o));
        no_functions = λ l. f.no_functions (omega (arith, o));
        no_thunks = λ l. f.no_thunks (omega (arith, o));
      },
    ),
    o,
  )

  opened :
      (order : ℕ) (m : Pass (Unit {0}))
      → Keeps (IsInside order) m
      → Triple (IsEntered order) m (λ u. IsInside order)
  opened order m k = record { runs = λ r s p b h. k.runs r s p b (entered-inside order s h) }

  started :
      (order : ℕ) (R : ℕ → State → Type 0) (m : Pass (Unit {0}))
      → ((s : State) → IsEntered order s → R 0 s)
      → Triple (R 0) m (λ u. IsInside order)
      → Triple (IsEntered order) m (λ u. IsInside order)
  started order R m open_ k = record { runs = λ r s p b h. k.runs r s p b (open_ s h) }

  types-opened : (s : State) → IsEntered 1 s → TypesRead 0 s
  types-opened s ((h, f), o) =
      let e = f.no_types (omega arith) in
      (
        (
          subst (λ n. IsIndexed (record (indices s) { types = n })) e h,
          record {
            no_types = λ l. absurd (omega arith);
            no_functions = λ l. f.no_functions (omega arith);
            no_thunks = λ l. f.no_thunks (omega arith);
          },
        ),
        o,
      )

  functions-opened : (s : State) → IsEntered 3 s → FunctionsRead 0 s
  functions-opened s ((h, f), o) =
      let e = f.no_functions (omega arith) in
      (
        (
          subst (λ n. IsIndexed (record (indices s) { defined = n })) e h,
          record {
            no_types = λ l. absurd (omega arith);
            no_functions = λ l. absurd (omega arith);
            no_thunks = λ l. f.no_thunks (omega arith);
          },
        ),
        o,
      )

  -- A section whose payload is copied.
  copied-Keeps :
      (id order : ℕ)
      → Keeps
          (IsInside order)
          (do end ← end_position; payload ← verbatim begin end; emit id payload)
  copied-Keeps id order =
      Keeps-bind _ _ Keeps-end_position λ end.
        Keeps-bind _ _ (verbatim-Keeps order begin end) λ payload. emit-Keeps order id payload

  some_equal : {m n : ℕ} → some m ≡ some n → m ≡ n
  some_equal e = cc

  module _ (id order : ℕ) (known : find_order id section_order ≡ some order) where
    handler :
        (k o : ℕ)
        → find_order k section_order ≡ some o
        → (m n : Pass (Unit {0})) → Triple (IsEntered o) m (λ u. IsInside o)
        → Triple (IsEntered order) n (λ u. IsInside order)
        → Triple (IsEntered order) (if id == k then m else n) (λ u. IsInside order)
    handler k o at m n t rest =
        Triple-if-known (IsEntered order) (λ u. IsInside order) (id == k) m n
          (λ e.
            let same : id ≡ k = ground arith in
            let o' : o ≡ order =
              some_equal
                (sym at ∙ subst (λ j. find_order j section_order ≡ some order) same known) in
            subst (λ o. Triple (IsEntered o) m (λ u. IsInside o)) o' t)
          (λ e. rest)

    pub section-Triple : Triple (IsEntered order) (section begin id) (λ u. IsInside order)
    unfolding section
    section-Triple = handler 1 1 refl _ _ (started 1 TypesRead types types-opened types-Triple) (
        handler 2 2 refl _ _ (opened 2 imports imports-Keeps) (
          handler 3 3 refl _ _
            (started 3 FunctionsRead function_types functions-opened function_types-Triple)
            (handler 4 4 refl _ _ (opened 4 tables tables-Keeps) (
              handler 5 5 refl _ _ (opened 5 memory memory-Keeps) (
                handler 6 7 refl _ _ (opened 7 globals globals-Keeps) (
                  handler 7 8 refl _ _ (opened 8 exports exports-Keeps) (
                    handler 8 9 refl _ _ (opened 9 start start-Keeps) (
                      handler 9 10 refl _ _ (opened 10 elements elements-Keeps) (
                        handler 10 12 refl _ _ (opened 12 code code-Keeps)
                          (opened order _ (copied-Keeps id order)))))))))))
