-- ===== src/Rewriter/Instrument/Indexed/Main.antt =====
-- `instrument` of sdk/typescript/rewriter.ts as a whole: it ends, and the index tables are right.
use capnpc_wasm.Common.{
  ℕ, zero, suc, ◌+◌, ◌≤◌, ◌<◌, ◌≡◌, ◌≢◌, refl, subst, Bool, true, false, ◌⊎◌, inl, inr, not, ◌&&◌,
  Option, none, some, List, arith, ltb, leb as le_b, length,
}
use capnpc_wasm.Common.Result.{Error, Result, ok, err, stuck, type_error, range_error}
use capnpc_wasm.Common.Result
use capnpc_wasm.Common.Number.{Number, whole_part}
use capnpc_wasm.Rewriter.Memory.{ModuleValue, module_bytes}
use capnpc_wasm.Rewriter.Memory.Header.{module_bytes_inv}
use capnpc_wasm.Rewriter.Memory.Converse.{header-length}
use capnpc_wasm.Rewriter.Memory.Termination.{bind-ne-stuck, module_bytes-ne-stuck}
use capnpc_wasm.Rewriter.Instrument.Pass.{State, throw_if, get, ◌>>=◌, ◌>>◌}
use capnpc_wasm.Rewriter.Instrument.Main.{
  find_order, section_order, in_order, one_section, sections, infinity, all_sections, start_state,
  bad_interval, Instrumented, instrumented, instrument,
}
use capnpc_wasm.Rewriter.Instrument.Triple.{
  Lands, Triple, Triple-weaken, Triple-bind, Triple-start, Triple-checked-at, Triple-checked,
  Triple-modify, Triple-inside,
}
use capnpc_wasm.Rewriter.Instrument.Keeps.{
  Keeps, Keeps-pure, Keeps-throw, Keeps-throw_if, Keeps-read, Keeps-bind, Keeps-if, Keeps-position,
  Keeps-end_position, Keeps-inside, KeepsFor, KeepsFor-any, KeepsFor-none, KeepsFor-bind,
  KeepsFor-byte, KeepsFor-if, KeepsFor-assoc, Triple-rounds,
}
use capnpc_wasm.Rewriter.Instrument.Reads.{IsWithin-u32, IsWithin-skip}
use capnpc_wasm.Rewriter.Instrument.Indexed.{Indices, IsIndexed, indices, IsBetween, IsInside}
use capnpc_wasm.Rewriter.Instrument.Indexed.Parts.{sealing, synthesize_before-Triple}
use capnpc_wasm.Rewriter.Instrument.Indexed.Entered.{
  TablesEntered, IsEntered, TablesBetween, custom-Keeps, section-Triple,
}

entered :
    (order : ℕ) (s : State)
    → s.last_order < order
    → IsBetween s
    → IsEntered order (record s { last_order = order })
entered order s l (h, f) = (
  (
    record {
      typed = h.typed;
      imports_counted = h.imports_counted;
      imports_typed = h.imports_typed;
      functions_counted = h.functions_counted;
      functions_typed = h.functions_typed;
      exit_imported = h.exit_imported;
      numbered = h.numbered;
      known = h.known;
      counted = h.counted;
    },
    record {
      no_types = λ k. f.no_types (omega arith);
      no_functions = λ k. f.no_functions (omega arith);
      no_thunks = λ k. f.no_thunks (omega arith);
    },
  ),
  refl,
)

sealed-indexed : (i : Indices) → IsIndexed i → IsIndexed (sealing i)
sealed-indexed i h = record {
  typed = h.typed;
  imports_counted = h.imports_counted;
  imports_typed = h.imports_typed;
  functions_counted = h.functions_counted;
  functions_typed = h.functions_typed;
  exit_imported = h.exit_imported;
  numbered = h.numbered;
  known = h.known;
  counted = λ e. refl;
}

sealing-entered :
    (order : ℕ) (i : Indices) → TablesEntered order i → TablesEntered order (sealing i)
sealing-entered order i ((h, f), o) = (
  (
    sealed-indexed i h,
    record { no_types = f.no_types; no_functions = f.no_functions; no_thunks = f.no_thunks },
  ),
  o,
)

module _ (begin end id : ℕ) (ahead : begin ≤ end) where
  entering :
      (order : ℕ)
      → find_order id section_order ≡ some order
      → Keeps IsBetween (in_order begin end id (some order))
  entering order known =
      let Q : Unit {0} → State → Type 0 = λ u. IsBetween in
      let R : Unit {0} → State → Type 0 = λ u. IsEntered order in
      Triple-start IsBetween Q _ λ s h.
        Triple-checked-at (λ t. s ≡ t) Q (le_b order s.last_order) _ _
          λ later.
            let l : s.last_order < order = ground arith in
            Triple-bind (λ t. s ≡ t) R Q _ _
              (Triple-modify (λ t. s ≡ t) (IsEntered order) _
                λ t same.
                  entered order t (subst (λ t. t.last_order < order) same l)
                    (subst IsBetween same h))
              λ u.
                Triple-bind (IsEntered order) R Q _ _
                  (synthesize_before-Triple (TablesEntered order) (TablesEntered order) (λ i h e. h)
                    (sealing-entered order) order (λ i h e. h))
                  λ u.
                    Triple-weaken (IsEntered order) (λ u. IsInside order) Q _ (λ u t h. h.0)
                      (Triple-inside (IsEntered order) (λ u. IsInside order) begin end _ ahead
                        (section-Triple begin id order known))

  in_order-Keeps :
      (found : Option ℕ)
      → find_order id section_order ≡ found
      → Keeps IsBetween (in_order begin end id found)
  in_order-Keeps none known = Keeps-throw _
  in_order-Keeps (some order) known = entering order known

sections-Keeps : (n : ℕ) → KeepsFor IsBetween n (sections n)
unfolding sections one_section
sections-Keeps zero = KeepsFor-none _
sections-Keeps (suc n) = KeepsFor-bind _ _ _ (KeepsFor-any _ _ Keeps-position) λ at.
    KeepsFor-bind _ _ _ (KeepsFor-any _ _ Keeps-end_position) λ end.
      KeepsFor-if _ _ _ _ (KeepsFor-any _ _ (Keeps-pure tt)) (
        KeepsFor-assoc _ _ _ _ (
          KeepsFor-byte n _ λ id.
            KeepsFor-bind n _ _
              (KeepsFor-any n _ (
                Keeps-bind _ _ (Keeps-read _ IsWithin-u32) λ size.
                  Keeps-bind _ _ Keeps-position λ begin. Keeps-bind _ _ Keeps-end_position λ end.
                    Keeps-bind _ _ (Keeps-throw_if _ _) λ u.
                      Keeps-bind _ _ (Keeps-read _ (IsWithin-skip size)) λ u.
                        Keeps-if _ _ _
                          (Keeps-inside begin (begin + size) _ (omega arith) (custom-Keeps begin))
                          (in_order-Keeps begin (begin + size) id (omega arith) _ refl)))
              λ u. sections-Keeps n))

-- The state in which the code is written out: the tables are right and the thunks are fixed, and the
-- sections that must be there have been read.
pub record IsFinished (s : State) : Type 0 where
  pub indexed : IsIndexed (indices s)
  pub fixed : s.sealed ≡ true
  pub memory : s.memory_seen ≡ true
  pub code : (s.defined_functions ≡ 0) ⊎ (s.code_seen ≡ true)

checked :
    Triple
      (λ s. IsIndexed (indices s) × (s.sealed ≡ true))
      (do
        s ← get
        throw_if (not s.memory_seen) (type_error "WASI command requires exactly one defined memory")
        throw_if
            (ltb 0 s.defined_functions && not s.code_seen)
            (type_error "invalid Wasm code section"))
      (λ u. IsFinished)
checked =
    Triple-start _ (λ u. IsFinished) _
      λ s h.
        Triple-checked-at (λ t. s ≡ t) (λ u. IsFinished) (not s.memory_seen) _ _
          λ memory.
            Triple-weaken (λ t. s ≡ t) _ (λ u. IsFinished) _
              (λ u t e. subst IsFinished e.0 (record {
                indexed = h.0;
                fixed = h.1;
                memory = seen s.memory_seen memory;
                code = coded s.defined_functions s.code_seen e.1;
              }))
              (Triple-checked (λ t. s ≡ t) (ltb 0 s.defined_functions && not s.code_seen) _)
  where
    seen : (b : Bool) → not b ≡ false → b ≡ true
    seen true e = refl
    seen false e = cc

    coded : (n : ℕ) (b : Bool) → (ltb 0 n && not b) ≡ false → (n ≡ 0) ⊎ (b ≡ true)
    coded zero b e = inl refl
    coded (suc n) true e = inr refl
    coded (suc n) false e = ground arith

all_sections-Triple : Triple IsBetween all_sections (λ u. IsFinished)
unfolding all_sections
all_sections-Triple =
    let Q : Unit {0} → State → Type 0 = λ u. IsFinished in
    Triple-rounds Q (λ n. sections (suc n)) _ (λ n. sections-Keeps (suc n))
      λ u.
        Triple-bind IsBetween _ Q _ _
          (synthesize_before-Triple TablesBetween (λ i. IsIndexed i × (i.sealed ≡ true))
            (λ i h e. (h.0, e)) (λ i h. (sealed-indexed i h.0, refl)) infinity
            (λ i h e. absurd (omega arith)))
          λ u. checked

start-IsBetween :
    (maximum interval : ℕ) (bytes : List ℕ) → IsBetween (start_state maximum interval bytes)
start-IsBetween maximum interval bytes = (
  record {
    typed = refl;
    imports_counted = refl;
    imports_typed = tt;
    functions_counted = refl;
    functions_typed = tt;
    exit_imported = tt;
    numbered = λ k index e. absurd (cc e);
    known = λ index thunk e. absurd (cc e);
    counted = λ e. absurd (cc e);
  },
  record { no_types = λ l. refl; no_functions = λ l. refl; no_thunks = λ l. (refl, refl) },
)

module _ (maximum interval : ℕ) (bytes : List ℕ) (long : 8 ≤ length bytes) where
  abbrev run : Result (Unit {0} × State × ℕ)
  run =
      all_sections (record { bytes = bytes; end = length bytes })
        (start_state maximum interval bytes) 8

  lands : Lands (λ u. IsFinished) (length bytes) 8 run
  lands = all_sections-Triple.runs _ _ 8 long (start-IsBetween maximum interval bytes)

  -- Where the loop over the sections of a module of eight bytes or more, with what follows it, returns,
  -- the index tables are right: the lists of types of the imported and the defined functions are as
  -- long as their counts, each type in them is a type of the module whose number of parameters is
  -- known, the exit function is an imported one, the thunks are numbered without a gap behind the
  -- added import and the defined functions, each for a different imported function, and the thunks
  -- reported are as many. The thunks are fixed, a memory has been seen, and so has the code where a
  -- function is defined.
  pub all_sections-IsFinished :
      (s : State) (q : ℕ)
      → all_sections
          (record { bytes = bytes; end = length bytes })
          (start_state maximum interval bytes)
          8
        ≡ ok (tt, s, q)
      → IsFinished s
  all_sections-IsFinished s q e =
      (subst (λ x. Lands (λ u. IsFinished) (length bytes) 8 x) e lands).2

  run-ne-stuck : instrumented run ≢ stuck
  run-ne-stuck = go run lands
    where
      go :
          (x : Result (Unit {0} × State × ℕ))
          → Lands (λ u. IsFinished) (length bytes) 8 x
          → instrumented x ≢ stuck
      go (ok a) l e = cc
      go (err x) l e = cc
      go stuck l e = l

-- `instrument` always returns a module or throws, whatever bytes, maximum and interval it is given:
-- each of its loops ends.
pub instrument-ne-stuck :
    (module_ : ModuleValue) (maximum : ℕ) (interval : Number)
    → instrument module_ maximum interval ≢ stuck
unfolding instrument
instrument-ne-stuck module_ maximum interval = go (bad_interval interval)
  where
    go :
        (bad : Bool)
        → ◌≢◌ {A = Result Instrumented}
            (Result.◌>>◌ (Result.throw_if bad (range_error "invalid interruption interval")) (
              Result.◌>>=◌ (module_bytes module_) λ bytes. instrumented (
                all_sections
                  (record { bytes = bytes; end = length bytes })
                  (start_state maximum (whole_part interval) bytes)
                  8)))
            stuck
    go true = λ e. cc
    go false = bind-ne-stuck _ _ (module_bytes-ne-stuck module_) λ bytes e.
        run-ne-stuck maximum (whole_part interval) bytes
          (header-length bytes (module_bytes_inv module_ bytes e).1)
