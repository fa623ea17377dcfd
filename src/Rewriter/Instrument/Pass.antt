-- ===== src/Rewriter/Instrument/Pass.antt =====
-- The state of `instrument` in sdk/typescript/rewriter.ts, and the monad of its inner functions.
use capnpc_wasm.Common.{ℕ, zero, suc, Bool, Option, none, List, [], ◌∷◌, if◌then◌else◌, slice}
use capnpc_wasm.Common.Result.{Error, Result, ok, err, stuck}
use capnpc_wasm.Rewriter.Reader.{Reader, Reading}
use capnpc_wasm.Rewriter.Writer.{Writer}

-- `result.names`
pub data NamesFate : Type 0 where
  renumbered dropped absent : NamesFate

-- `result`, without the bytes.
pub record Counters : Type 0 where
  pub functions : ℕ
  pub entry_checks : ℕ
  pub loop_checks : ℕ
  pub import_checks : ℕ
  pub bulk_checks : ℕ
  pub thunks : ℕ
  pub names : NamesFate

-- `pending`
pub record Pending : Type 0 where
  pub type_ : Bool
  pub import_ : Bool
  pub global : Bool
  pub export : Bool

-- The function section that waits in its slot.
pub record Functions : Type 0 where
  pub entries : ℕ
  pub end : ℕ
  pub slot : ℕ

-- The local variables of `instrument`, and its two numbers. An exit function of none is -1.
pub record State : Type 0 where
  pub maximum : ℕ
  pub interval : ℕ
  pub output : Writer
  pub result : Counters
  pub last_order : ℕ
  pub type_count : ℕ
  pub param_counts : List ℕ
  pub imported_functions : ℕ
  pub import_types : List ℕ
  pub imported_globals : ℕ
  pub defined_globals : ℕ
  pub defined_functions : ℕ
  pub function_types : List ℕ
  pub exit_function : Option ℕ
  pub memory_seen : Bool
  pub code_seen : Bool
  pub pending : Pending
  pub functions : Option Functions
  pub thunk_of : List (ℕ × ℕ)
  pub thunk_imports : List ℕ
  pub elements_seen : Bool
  pub sealed : Bool

-- Code that reads from one reader and changes the state; it returns with the reader's position.
abbrev pub Pass : Type 0 → Type 0
Pass A = Reader → State → ℕ → Result (A × State × ℕ)

module _ {A : Type 0} where
  unfoldable pub pure : A → Pass A
  pure a r s p = ok (a, s, p)

  unfoldable pub throw : Error → Pass A
  throw e r s p = err e

  abbrev pub with_state : State → Result (A × ℕ) → Result (A × State × ℕ)
  with_state s (ok (a, q)) = ok (a, s, q)
  with_state s (err e) = err e
  with_state s stuck = stuck

  -- A call of a method of the reader, or of a function that only reads.
  unfoldable pub read : Reading A → Pass A
  read m r s p = with_state s (m r p)

  unfoldable pub out_of_fuel : Pass A
  out_of_fuel r s p = stuck

  abbrev pub at_position : ℕ → Result (A × State × ℕ) → Result (A × State × ℕ)
  at_position p (ok (a, s, q)) = ok (a, s, p)
  at_position p (err e) = err e
  at_position p stuck = stuck

  -- Work on `new Reader(bytes, start, end)`; the caller's reader stays where it is.
  unfoldable pub inside : ℕ → ℕ → Pass A → Pass A
  inside start end m r s p = at_position p (m (record { bytes = r.bytes; end = end }) s start)

  -- `try { … } catch { return undefined; }` around code that changes no variable outside.
  abbrev pub caught : State → ℕ → Result (Option A × State × ℕ) → Result (Option A × State × ℕ)
  caught s p (ok (a, s', q)) = ok (a, s', q)
  caught s p (err e) = ok (none, s, p)
  caught s p stuck = stuck

  unfoldable pub try : Pass (Option A) → Pass (Option A)
  try m r s p = caught s p (m r s p)

unfoldable pub throw_if : Bool → Error → Pass (Unit {0})
throw_if bad e r s p = if bad then err e else ok (tt, s, p)

unfoldable pub get : Pass State
get r s p = ok (s, s, p)

unfoldable pub modify : (State → State) → Pass (Unit {0})
modify f r s p = ok (tt, f s, p)

unfoldable pub position : Pass ℕ
position r s p = ok (p, s, p)

unfoldable pub end_position : Pass ℕ
end_position r s p = ok (r.end, s, p)

-- `bytes.subarray(start, end)`
unfoldable pub subarray : ℕ → ℕ → Pass (List ℕ)
subarray start end r s p = ok (slice start end r.bytes, s, p)

infixl 5 ◌>>=◌ ◌>>◌
unfoldable pub ◌>>=◌ : {A B : Type 0} → Pass A → (A → Pass B) → Pass B
unfolding pure throw read throw_if get modify position end_position subarray
◌>>=◌ m f r s p = elim (m r s p) [ ok (a, s', q) ↦ f a r s' q | err e ↦ err e | stuck ↦ stuck ]

abbrev pub ◌>>◌ : {B : Type 0} → Pass (Unit {0}) → Pass B → Pass B
m >> k = m >>= λ _. k

-- `for (let i = 0; i < count; i++)`, on what the body changes.
unfoldable pub times : {A : Type 0} → ℕ → (A → Pass A) → A → Pass A
times zero body a = pure a
times (suc count) body a = do b ← body a; times count body b

-- `for (const x of list)`
unfoldable pub each : {A X : Type 0} → (X → A → A) → List X → A → A
each f [] a = a
each f (x ∷ xs) a = each f xs (f x a)
