-- ===== src/Rewriter/Instrument/Indexed.antt =====
-- The index tables that `instrument` in sdk/typescript/rewriter.ts keeps, and its `reference`.
pub mod Parts
pub mod Sections
pub mod Values
pub mod Body
pub mod Code
pub mod Entered
pub mod Main
pub mod Targets
use capnpc_wasm.Common.{
  ℕ, zero, suc, ◌+◌, ◌≤◌, ◌<◌, ◌≡◌, ◌≢◌, refl, sym, ap, ◌∙◌, subst, Bool, true, false, Bool-cases,
  ◌⊎◌, inl, inr, Option, none, some, List, [], ◌∷◌, ◌++◌, arith, ltb, leb as le_b, ◌==◌,
  if◌then◌else◌, length, append-nil, length-append, get_elem?, All,
}
use capnpc_wasm.Common.Result.{Error, Result, ok, err, stuck}
use capnpc_wasm.Rewriter.Reader.{Reader}
use capnpc_wasm.Rewriter.Instrument.Pass.{State, Pass, pure, throw_if, get, modify, ◌>>=◌, ◌>>◌}
use capnpc_wasm.Rewriter.Instrument.Parts.{lookup, next_thunk, thunk_for, reference}
use capnpc_wasm.Rewriter.Instrument.Triple.{
  Triple, Triple-start, Triple-pure-at, Triple-if-known, Triple-checked-at, Triple-modify-at,
}

-- The variables that number types, functions and thunks.
pub record Indices : Type 0 where
  pub order : ℕ
  pub types : ℕ
  pub param_counts : List ℕ
  pub imported : ℕ
  pub import_types : List ℕ
  pub defined : ℕ
  pub function_types : List ℕ
  pub exit_function : Option ℕ
  pub thunk_of : List (ℕ × ℕ)
  pub thunk_imports : List ℕ
  pub sealed : Bool
  pub thunks : ℕ

abbrev pub indices : State → Indices
indices s = record {
  order = s.last_order;
  types = s.type_count;
  param_counts = s.param_counts;
  imported = s.imported_functions;
  import_types = s.import_types;
  defined = s.defined_functions;
  function_types = s.function_types;
  exit_function = s.exit_function;
  thunk_of = s.thunk_of;
  thunk_imports = s.thunk_imports;
  sealed = s.sealed;
  thunks = s.result.thunks;
}

abbrev pub IsBelow : Option ℕ → ℕ → Type 0
IsBelow none n = Unit {0}
IsBelow (some i) n = i < n

-- The thunk of a number: behind the import of the interrupt and the functions of the module.
abbrev pub thunk_index : Indices → ℕ → ℕ
thunk_index i k = i.imported + 1 + i.defined + k

-- Every index that the code keeps is in the range of the list it is for, and the thunks are numbered
-- in the order of their imports.
pub record IsIndexed (i : Indices) : Type 0 where
  pub typed : length i.param_counts ≡ i.types
  pub imports_counted : length i.import_types ≡ i.imported
  pub imports_typed : All (λ t. t < i.types) i.import_types
  pub functions_counted : length i.function_types ≡ i.defined
  pub functions_typed : All (λ t. t < i.types) i.function_types
  pub exit_imported : IsBelow i.exit_function i.imported
  pub numbered :
      (k index : ℕ)
      → get_elem? i.thunk_imports k ≡ some index
      → (index < i.imported) × (lookup index i.thunk_of ≡ some (thunk_index i k))
  pub known :
      (index thunk : ℕ)
      → lookup index i.thunk_of ≡ some thunk
      → (k : ℕ) × (get_elem? i.thunk_imports k ≡ some index) × (thunk ≡ thunk_index i k)
  pub counted : i.sealed ≡ true → i.thunks ≡ length i.thunk_imports

-- What has not been read yet where the next section has this order at least.
pub record IsFresh (next : ℕ) (i : Indices) : Type 0 where
  pub no_types : next ≤ 1 → i.types ≡ 0
  pub no_functions : next ≤ 3 → i.defined ≡ 0
  pub no_thunks : next ≤ 6 → (i.thunk_of ≡ []) × (i.thunk_imports ≡ [])

-- Between two sections, and inside one.
abbrev pub IsBetween : State → Type 0
IsBetween s = IsIndexed (indices s) × IsFresh (s.last_order + 1) (indices s)

module _ {A : Type 0} where
  pub get_elem?-last :
      (xs : List A) (x y : A) (k : ℕ)
      → get_elem? (xs ++ (x ∷ [])) k ≡ some y
      → (get_elem? xs k ≡ some y) ⊎ ((k ≡ length xs) × (x ≡ y))
  get_elem?-last [] x y zero h = inr (refl, cc)
  get_elem?-last [] x y (suc k) h = cc
  get_elem?-last (z ∷ xs) x y zero h = inl h
  get_elem?-last (z ∷ xs) x y (suc k) h = elim (get_elem?-last xs x y k h) [
    | inl e ↦ inl e
    | inr (e, f) ↦ inr (omega arith, f)
  ]

  pub get_elem?-front :
      (xs ys : List A) (k : ℕ) (x : A) → get_elem? xs k ≡ some x → get_elem? (xs ++ ys) k ≡ some x
  get_elem?-front [] ys k x h = cc
  get_elem?-front (z ∷ xs) ys zero x h = h
  get_elem?-front (z ∷ xs) ys (suc k) x h = get_elem?-front xs ys k x h

  pub get_elem?-end : (xs : List A) (x : A) → get_elem? (xs ++ (x ∷ [])) (length xs) ≡ some x
  get_elem?-end [] x = refl
  get_elem?-end (z ∷ xs) x = get_elem?-end xs x

-- The tables with a thunk for one more import.
abbrev pub with_thunk : ℕ → Indices → Indices
with_thunk index i = record i {
  thunk_of = (index, thunk_index i (length i.thunk_imports)) ∷ i.thunk_of;
  thunk_imports = i.thunk_imports ++ (index ∷ []);
}

module _ (i : Indices) (index : ℕ) (h : IsIndexed i) (low : index < i.imported)
    (unsealed : i.sealed ≡ false) (new : lookup index i.thunk_of ≡ none) where
  numbered' :
      (k j : ℕ)
      → get_elem? (i.thunk_imports ++ (index ∷ [])) k ≡ some j
      → (j < i.imported) × (lookup j (with_thunk index i).thunk_of ≡ some (thunk_index i k))
  numbered' k j e = elim (get_elem?-last i.thunk_imports index j k e) [
    | inl e' ↦ (
      (h.numbered k j e').0,
      let differs : (index == j) ≡ false = apart (h.numbered k j e').1 (Bool-cases (index == j)) in
          rw differs (h.numbered k j e').1,
    )
    | inr (e', f) ↦
        (ground arith, let same : (index == j) ≡ true = ground arith in rw (same, e') refl)
  ]
    where
      apart :
          lookup j i.thunk_of ≡ some (thunk_index i k)
          → ((index == j) ≡ true) ⊎ ((index == j) ≡ false)
          → (index == j) ≡ false
      apart found (inr e) = e
      apart found (inl e) = let same : index ≡ j = ground arith in absurd (cc (same, found, new))

  known' :
      (j thunk : ℕ)
      → lookup j (with_thunk index i).thunk_of ≡ some thunk
      → (k : ℕ) × (get_elem? (i.thunk_imports ++ (index ∷ [])) k ≡ some j)
        × (thunk ≡ thunk_index i k)
  known' j thunk = go (index == j) refl
    where
      go :
          (b : Bool)
          → (index == j) ≡ b
          → (if b then some (thunk_index i (length i.thunk_imports)) else lookup j i.thunk_of)
            ≡ some thunk
          → (k : ℕ) × (get_elem? (i.thunk_imports ++ (index ∷ [])) k ≡ some j)
            × (thunk ≡ thunk_index i k)
      go true e f =
          let same : index ≡ j = ground arith in
          (
            length i.thunk_imports,
            subst
                (λ t. get_elem? (i.thunk_imports ++ (index ∷ [])) (length i.thunk_imports) ≡ some t)
                same (get_elem?-end i.thunk_imports index),
            cc,
          )
      go false e f =
          let found = h.known j thunk f in
          (found.0, get_elem?-front i.thunk_imports (index ∷ []) found.0 j found.1, found.2)

  pub with_thunk-IsIndexed : IsIndexed (with_thunk index i)
  with_thunk-IsIndexed = record {
    typed = h.typed;
    imports_counted = h.imports_counted;
    imports_typed = h.imports_typed;
    functions_counted = h.functions_counted;
    functions_typed = h.functions_typed;
    exit_imported = h.exit_imported;
    numbered = numbered';
    known = known';
    counted = λ e. absurd (cc (e, unsealed));
  }

-- The index that stands for a function's index in the module written, when the function is used as a
-- value.
pub data IsTarget (i : Indices) (index : ℕ) : ℕ → Type 0 where
  of_defined : i.imported ≤ index → IsTarget i index (index + 1)
  of_host : index < i.imported → i.defined ≡ 0 → IsTarget i index index
  of_thunk :
      (k : ℕ)
      → index < i.imported
      → 0 < i.defined
      → get_elem? i.thunk_imports k ≡ some index
      → IsTarget i index (thunk_index i k)

-- Inside the section of an order.
abbrev pub TablesInside : ℕ → Indices → Type 0
TablesInside order i = (IsIndexed i × IsFresh (i.order + 1) i) × (i.order ≡ order)

abbrev pub IsInside : ℕ → State → Type 0
IsInside order s = TablesInside order (indices s)

-- The functions are the same, and there may be more thunks.
pub record Extends (i j : Indices) : Type 0 where
  pub imported : j.imported ≡ i.imported
  pub defined : j.defined ≡ i.defined
  pub more : List ℕ
  pub thunks : j.thunk_imports ≡ i.thunk_imports ++ more

Extends-same : (i : Indices) → Extends i i
Extends-same i = record {
  imported = refl;
  defined = refl;
  more = [];
  thunks = sym (append-nil i.thunk_imports);
}

module _ (order : ℕ) (late : 7 ≤ order) (index : ℕ) (s : State) (h : IsInside order s) where
  abbrev pub Referred : ℕ → State → Type 0
  Referred target t =
      IsInside order t × IsTarget (indices t) index target × Extends (indices s) (indices t)

  thunk_for-Triple :
      index < s.imported_functions
      → 0 < s.defined_functions
      → (found : Option ℕ) → lookup index s.thunk_of ≡ found
      → Triple (λ t. s ≡ t) (thunk_for index found) Referred
  thunk_for-Triple low some_code (some thunk) e =
      let at = h.0.0.known index thunk e in
      Triple-pure-at s Referred thunk (
        h,
        subst (λ t. IsTarget (indices s) index t) (sym at.2) (of_thunk at.0 low some_code at.1),
        Extends-same (indices s),
      )
  thunk_for-Triple low some_code none e =
      Triple-start (λ t. s ≡ t) Referred _
        λ s' same.
          Triple-checked-at (λ t. s' ≡ t) Referred _ _ _
            λ unsealed. Triple-modify-at s' Referred _ _ (
              Triple-pure-at _ Referred _ (
                subst (λ t. t.sealed ≡ false → Referred (next_thunk t) (with_next t)) same added
                  unsealed))
    where
      with_next : State → State
      with_next s = record s {
        thunk_of = (index, next_thunk s) ∷ s.thunk_of;
        thunk_imports = s.thunk_imports ++ (index ∷ []);
      }

      added : s.sealed ≡ false → Referred (next_thunk s) (with_next s)
      added unsealed = (
        (
          (
            with_thunk-IsIndexed (indices s) index h.0.0 low unsealed e,
            record {
              no_types = λ l. absurd (omega (arith, h.1));
              no_functions = λ l. absurd (omega (arith, h.1));
              no_thunks = λ l. absurd (omega (arith, h.1));
            },
          ),
          h.1,
        ),
        of_thunk (length s.thunk_imports) low some_code (get_elem?-end s.thunk_imports index),
        record { imported = refl; defined = refl; more = index ∷ []; thunks = refl },
      )

  -- A function used as a value.
  pub reference-Triple : Triple (λ t. s ≡ t) (reference index) Referred
  unfolding reference
  reference-Triple =
      Triple-start (λ t. s ≡ t) Referred _
        λ s' same.
          subst (λ s'. Triple (λ t. s' ≡ t) (chosen s') Referred) same
            (Triple-if-known (λ t. s ≡ t) Referred (le_b s.imported_functions index) _ _
              (λ e.
                Triple-pure-at s Referred _
                  (h, of_defined (ground arith), Extends-same (indices s)))
              (λ e.
                let low : index < s.imported_functions = ground arith in
                Triple-if-known (λ t. s ≡ t) Referred (s.defined_functions == 0) _ _
                  (λ z.
                    Triple-pure-at s Referred _
                      (h, of_host low (ground arith), Extends-same (indices s)))
                  (λ z. thunk_for-Triple low (ground arith) (lookup index s.thunk_of) refl)))
    where
      chosen : State → Pass ℕ
      chosen s =
          if le_b s.imported_functions index
          then pure (index + 1)
          else if s.defined_functions == 0
          then pure index
          else thunk_for index (lookup index s.thunk_of)
