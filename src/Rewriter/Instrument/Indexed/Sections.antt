-- ===== src/Rewriter/Instrument/Indexed/Sections.antt =====
-- The handlers of the sections before the code in `instrument` of sdk/typescript/rewriter.ts, on the
-- index tables.
use capnpc_wasm.Common.{
  ℕ, ◌+◌, ◌≤◌, ◌<◌, ◌≡◌, subst, Bool, true, false, Option, none, some, List, [], ◌∷◌, ◌++◌, String,
  arith, leb as le_b, if◌then◌else◌, length-append, get_elem?, All, All-append,
}
use capnpc_wasm.Rewriter.Writer.{Writer}
use capnpc_wasm.Rewriter.Instrument.Pass.{State}
use capnpc_wasm.Rewriter.Instrument.Parts.{lookup, emit, verbatim, done}
use capnpc_wasm.Rewriter.Instrument.Sections.{
  value_types_of, type_entry, types, is_exit, import_function, import_memory, mutability,
  import_global, import_tag, import_entry, imports, function_entry, function_types, table_entry,
}
use capnpc_wasm.Rewriter.Instrument.Triple.{
  Triple, Triple-bind, Triple-modify, Triple-start, Triple-checked-at, Triple-times-count,
}
use capnpc_wasm.Rewriter.Instrument.Keeps.{
  Keeps, Keeps-pure, Keeps-throw, Keeps-throw_if, Keeps-read, Keeps-bind, Keeps-if, Keeps-get,
  Keeps-modify, Keeps-position, Keeps-end_position, Keeps-subarray, Keeps-times,
}
use capnpc_wasm.Rewriter.Instrument.Reads.{
  IsWithin-byte, IsWithin-u32, IsWithin-leb, IsWithin-name, IsWithin-value_type,
  IsWithin-table_type, IsWithin-next_is,
}
use capnpc_wasm.Rewriter.Instrument.Indexed.{
  IsIndexed, IsFresh, IsBelow, TablesInside, indices, IsInside,
}
use capnpc_wasm.Rewriter.Instrument.Indexed.Parts.{emit-Triple, verbatim-Triple, done-Triple}

All-weaken : (m n : ℕ) (xs : List ℕ) → m ≤ n → All (λ t. t < m) xs → All (λ t. t < n) xs
All-weaken m n [] l h = tt
All-weaken m n (x ∷ xs) l (h, k) = (omega arith, All-weaken m n xs l k)

pub value_types-Keeps : {P : State → Type 0} (count : ℕ) → Keeps P (value_types_of count)
value_types-Keeps count = Keeps-times count _ (λ u. Keeps-read _ IsWithin-value_type) tt

no_thunk : {xs : List ℕ} → xs ≡ [] → (k index : ℕ) → get_elem? xs k ≡ some index → ⊥
no_thunk e k index f = cc

no_lookup : {xs : List (ℕ × ℕ)} → xs ≡ [] → (index thunk : ℕ) → lookup index xs ≡ some thunk → ⊥
no_lookup e index thunk f = cc

-- The tables with `i` types counted so far.
abbrev pub TypesRead : ℕ → State → Type 0
TypesRead i s =
    (IsIndexed (record (indices s) { types = i }) × IsFresh 2 (record (indices s) { types = i }))
    × (s.last_order ≡ 1)

with_params :
    (i n : ℕ) (s : State)
    → TypesRead i s
    → TypesRead (i + 1) (record s { param_counts = s.param_counts ++ (n ∷ []) })
with_params i n s ((h, f), o) = (
  (
    record {
      typed = omega (arith, h.typed, length-append s.param_counts (n ∷ []));
      imports_counted = h.imports_counted;
      imports_typed = All-weaken i (i + 1) s.import_types (omega arith) h.imports_typed;
      functions_counted = h.functions_counted;
      functions_typed = All-weaken i (i + 1) s.function_types (omega arith) h.functions_typed;
      exit_imported = h.exit_imported;
      numbered = h.numbered;
      known = h.known;
      counted = h.counted;
    },
    record {
      no_types = λ l. absurd (omega arith);
      no_functions = f.no_functions;
      no_thunks = f.no_thunks;
    },
  ),
  o,
)

type_entry-Triple : (i : ℕ) → Triple (TypesRead i) type_entry (λ u. TypesRead (i + 1))
unfolding type_entry
type_entry-Triple i =
    let J : State → Type 0 = TypesRead i in
    let K : Unit {0} → State → Type 0 = λ u. TypesRead (i + 1) in
    Triple-bind J (λ a. J) K _ _ (Keeps-read _ IsWithin-byte)
      λ form.
        Triple-bind J (λ a. J) K _ _ (Keeps-throw_if _ _)
          λ u.
            Triple-bind J (λ a. J) K _ _ (Keeps-read _ IsWithin-u32)
              λ params.
                Triple-bind J K K _ _ (Triple-modify J (TypesRead (i + 1)) _ (with_params i params))
                  λ u. Keeps-bind _ _ (value_types-Keeps params) λ u.
                    Keeps-bind _ _ (Keeps-read _ IsWithin-u32) λ results. value_types-Keeps results

pub types-Triple : Triple (TypesRead 0) types (λ u. IsInside 1)
unfolding types
types-Triple =
    let J : State → Type 0 = TypesRead 0 in
    let K : Unit {0} → State → Type 0 = λ u. IsInside 1 in
    Triple-bind J (λ a. J) K _ _ (Keeps-read _ IsWithin-u32)
      λ count.
        let L : State → Type 0 = TypesRead (0 + count) in
        Triple-bind J (λ a. J) K _ _ Keeps-position
          λ entries.
            Triple-bind J (λ u. L) K _ _
              (Triple-times-count TypesRead 0 count _ (λ i u. type_entry-Triple i) tt)
              λ u.
                Triple-bind L (λ u. L) K _ _ (ended _ count)
                  λ u.
                    Triple-bind L K K _ _ (Triple-modify L (IsInside 1) _ (counted_types count))
                      λ u. Keeps-bind _ _ Keeps-end_position λ end.
                        Keeps-bind _ _ (Keeps-subarray entries end) λ part.
                          Keeps-bind _ _ (Keeps-modify _ λ s h. h)
                            λ u. emit-Triple (TablesInside 1) 1 _
  where
    ended : (message : String) (count : ℕ) → Keeps (TypesRead (0 + count)) (done message)
    ended message count =
        done-Triple
          (λ i.
            (IsIndexed (record i { types = 0 + count })
              × IsFresh 2 (record i { types = 0 + count }))
            × (i.order ≡ 1))
          message

    counted_types :
        (count : ℕ) (s : State)
        → TypesRead (0 + count) s
        → IsInside 1 (record s { type_count = count })
    counted_types count s (h, o) =
        let e : 0 + count ≡ count = omega arith in
        let e' : 2 ≡ s.last_order + 1 = omega (arith, o) in
        (
          subst
              (λ n.
                IsIndexed (record (indices s) { types = n })
                × IsFresh (s.last_order + 1) (record (indices s) { types = n }))
              e
              (subst
                (λ n.
                  IsIndexed (record (indices s) { types = 0 + count })
                  × IsFresh n (record (indices s) { types = 0 + count }))
                e' h),
          o,
        )

-- What another import of a function does to the tables.
with_import :
    (type_ : ℕ) (exit : Bool) (s : State)
    → type_ < s.type_count
    → IsInside 2 s
    → IsInside 2 (record s {
      import_types = s.import_types ++ (type_ ∷ []);
      exit_function = if exit then some s.imported_functions else s.exit_function;
      imported_functions = s.imported_functions + 1;
    })
with_import type_ exit s low ((h, f), o) =
    let none_yet = f.no_thunks (omega (arith, o)) in
    (
      (
        record {
          typed = h.typed;
          imports_counted =
              omega (arith, h.imports_counted, length-append s.import_types (type_ ∷ []));
          imports_typed = All-append _ s.import_types (type_ ∷ []) h.imports_typed (low, tt);
          functions_counted = h.functions_counted;
          functions_typed = h.functions_typed;
          exit_imported = exit_below exit s.exit_function h.exit_imported;
          numbered = λ k index e. absurd (no_thunk none_yet.1 k index e);
          known = λ index thunk e. absurd (no_lookup none_yet.0 index thunk e);
          counted = h.counted;
        },
        record {
          no_types = λ l. absurd (omega (arith, o));
          no_functions = f.no_functions;
          no_thunks = f.no_thunks;
        },
      ),
      o,
    )
  where
    exit_below :
        (b : Bool) (found : Option ℕ)
        → IsBelow found s.imported_functions
        → IsBelow (if b then some s.imported_functions else found) (s.imported_functions + 1)
    exit_below true found h = omega arith
    exit_below false none h = tt
    exit_below false (some i) h = omega arith

import_function-Keeps :
    (module_name field_name : List ℕ) → Keeps (IsInside 2) (import_function module_name field_name)
unfolding import_function
import_function-Keeps module_name field_name =
    let I : State → Type 0 = IsInside 2 in
    Keeps-bind _ _ (Keeps-read _ IsWithin-u32) λ type_.
      Triple-start I (λ u. I) _
        λ s h.
          Triple-checked-at (λ t. s ≡ t) (λ u. I) _ _ _
            λ low.
              Triple-modify (λ t. s ≡ t) I _
                λ t same.
                  with_import type_ (is_exit module_name field_name) t
                    (subst (λ t. type_ < t.type_count) same (below type_ s low)) (subst I same h)
  where
    below : (type_ : ℕ) (s : State) → le_b s.type_count type_ ≡ false → type_ < s.type_count
    below type_ s low = ground arith

module _ {P : State → Type 0} where
  pub mutability-Keeps : Keeps P mutability
  mutability-Keeps = Keeps-bind _ _ (Keeps-read _ IsWithin-byte) λ flag. Keeps-throw_if _ _

  import_memory-Keeps : Keeps P import_memory
  unfolding import_memory
  import_memory-Keeps = Keeps-bind _ _ (Keeps-read _ IsWithin-byte) λ flags.
      Keeps-bind _ _ (Keeps-throw_if _ _) λ u. Keeps-bind _ _ (Keeps-read _ (IsWithin-leb 10)) λ u.
        Keeps-bind _ _ (Keeps-if _ _ _ (Keeps-pure tt) (Keeps-read _ (IsWithin-leb 10))) λ u.
          Keeps-bind _ _ (Keeps-if _ _ _ (Keeps-pure 0) (Keeps-read _ IsWithin-u32))
            λ index. Keeps-pure tt

  import_tag-Keeps : Keeps P import_tag
  unfolding import_tag
  import_tag-Keeps = Keeps-bind _ _ (Keeps-read _ IsWithin-byte) λ attribute.
      Keeps-bind _ _ (Keeps-throw_if _ _)
        λ u. Keeps-bind _ _ (Keeps-read _ IsWithin-u32) λ type_. Keeps-pure tt

  pub table_entry-Keeps : Keeps P table_entry
  unfolding table_entry
  table_entry-Keeps =
      Keeps-bind _ _ (Keeps-read _ (IsWithin-next_is 0x40))
        λ initialized. Keeps-bind _ _ (Keeps-throw_if _ _) λ u. Keeps-read _ IsWithin-table_type

import_global-Keeps : (order : ℕ) → Keeps (IsInside order) import_global
unfolding import_global
import_global-Keeps order =
    Keeps-bind _ _ (Keeps-read _ IsWithin-value_type)
      λ u. Keeps-bind _ _ mutability-Keeps λ u. Keeps-modify _ λ s h. h

import_entry-Keeps : Keeps (IsInside 2) import_entry
unfolding import_entry
import_entry-Keeps = Keeps-bind _ _ (Keeps-read _ IsWithin-name) λ module_name.
    Keeps-bind _ _ (Keeps-read _ IsWithin-name) λ field_name.
      Keeps-bind _ _ (Keeps-read _ IsWithin-byte) λ kind.
        Keeps-if _ _ _ (import_function-Keeps module_name field_name) (
          Keeps-if _ _ _ (Keeps-read _ IsWithin-table_type) (
            Keeps-if _ _ _ import_memory-Keeps (
              Keeps-if _ _ _ (import_global-Keeps 2)
                (Keeps-if _ _ _ import_tag-Keeps (Keeps-throw _)))))

module _ (order : ℕ) where
  pub emit-Keeps : (id : ℕ) (payload : Writer) → Keeps (IsInside order) (emit id payload)
  emit-Keeps = emit-Triple (TablesInside order)

  pub done-Keeps : (message : String) → Keeps (IsInside order) (done message)
  done-Keeps = done-Triple (TablesInside order)

  pub verbatim-Keeps : (start end : ℕ) → Keeps (IsInside order) (verbatim start end)
  verbatim-Keeps = verbatim-Triple (TablesInside order)

pub imports-Keeps : Keeps (IsInside 2) imports
unfolding imports
imports-Keeps = Keeps-bind _ _ (Keeps-read _ IsWithin-u32) λ count.
    Keeps-bind _ _ Keeps-position λ entries.
      Keeps-bind _ _ (Keeps-times count _ (λ u. import_entry-Keeps) tt) λ u.
        Keeps-bind _ _ (done-Keeps 2 _) λ u. Keeps-bind _ _ Keeps-end_position λ end.
          Keeps-bind _ _ (Keeps-subarray entries end) λ part.
            Keeps-bind _ _ Keeps-get
              λ s. Keeps-bind _ _ (Keeps-modify _ λ s h. h) λ u. emit-Keeps 2 2 _

-- The tables with the types of `i` functions read so far.
abbrev pub FunctionsRead : ℕ → State → Type 0
FunctionsRead i s =
    (IsIndexed (record (indices s) { defined = i })
      × IsFresh 4 (record (indices s) { defined = i }))
    × (s.last_order ≡ 3)

with_function :
    (i type_ : ℕ) (s : State)
    → type_ < s.type_count
    → FunctionsRead i s
    → FunctionsRead (i + 1) (record s { function_types = s.function_types ++ (type_ ∷ []) })
with_function i type_ s low ((h, f), o) =
    let none_yet = f.no_thunks (omega arith) in
    (
      (
        record {
          typed = h.typed;
          imports_counted = h.imports_counted;
          imports_typed = h.imports_typed;
          functions_counted =
              omega (arith, h.functions_counted, length-append s.function_types (type_ ∷ []));
          functions_typed = All-append _ s.function_types (type_ ∷ []) h.functions_typed (low, tt);
          exit_imported = h.exit_imported;
          numbered = λ k index e. absurd (no_thunk none_yet.1 k index e);
          known = λ index thunk e. absurd (no_lookup none_yet.0 index thunk e);
          counted = h.counted;
        },
        record {
          no_types = λ l. absurd (omega arith);
          no_functions = λ l. absurd (omega arith);
          no_thunks = f.no_thunks;
        },
      ),
      o,
    )

function_entry-Triple :
    (i : ℕ) → Triple (FunctionsRead i) function_entry (λ u. FunctionsRead (i + 1))
unfolding function_entry
function_entry-Triple i =
    let J : State → Type 0 = FunctionsRead i in
    let K : Unit {0} → State → Type 0 = λ u. FunctionsRead (i + 1) in
    Triple-bind J (λ a. J) K _ _ (Keeps-read _ IsWithin-u32)
      λ type_. Triple-start J K _ λ s h.
        Triple-checked-at (λ t. s ≡ t) K _ _ _
          λ low.
            Triple-modify (λ t. s ≡ t) (FunctionsRead (i + 1)) _
              λ t same.
                with_function i type_ t (subst (λ t. type_ < t.type_count) same (below type_ s low))
                  (subst J same h)
  where
    below : (type_ : ℕ) (s : State) → le_b s.type_count type_ ≡ false → type_ < s.type_count
    below type_ s low = ground arith

pub function_types-Triple : Triple (FunctionsRead 0) function_types (λ u. IsInside 3)
unfolding function_types
function_types-Triple =
    let J : State → Type 0 = FunctionsRead 0 in
    let K : Unit {0} → State → Type 0 = λ u. IsInside 3 in
    Triple-bind J (λ a. J) K _ _ (Keeps-read _ IsWithin-u32)
      λ count.
        let L : State → Type 0 = FunctionsRead (0 + count) in
        Triple-bind J (λ a. J) K _ _ Keeps-position
          λ entries.
            Triple-bind J (λ u. L) K _ _
              (Triple-times-count FunctionsRead 0 count _ (λ i u. function_entry-Triple i) tt)
              λ u.
                Triple-bind L (λ u. L) K _ _ (ended _ count)
                  λ u.
                    Triple-bind L (λ u. L) K _ _ Keeps-end_position
                      λ end. Triple-modify L (IsInside 3) _ λ s h. counted_functions count s h
  where
    ended : (message : String) (count : ℕ) → Keeps (FunctionsRead (0 + count)) (done message)
    ended message count =
        done-Triple
          (λ i.
            (IsIndexed (record i { defined = 0 + count })
              × IsFresh 4 (record i { defined = 0 + count }))
            × (i.order ≡ 3))
          message

    counted_functions :
        (count : ℕ) (s : State)
        → FunctionsRead (0 + count) s
        → TablesInside 3 (record (indices s) { defined = count })
    counted_functions count s (h, o) =
        let e : 0 + count ≡ count = omega arith in
        let e' : 4 ≡ s.last_order + 1 = omega (arith, o) in
        (
          subst
              (λ n.
                IsIndexed (record (indices s) { defined = n })
                × IsFresh (s.last_order + 1) (record (indices s) { defined = n }))
              e
              (subst
                (λ n.
                  IsIndexed (record (indices s) { defined = 0 + count })
                  × IsFresh n (record (indices s) { defined = 0 + count }))
                e' h),
          o,
        )
