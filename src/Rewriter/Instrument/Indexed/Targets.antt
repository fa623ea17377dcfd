-- ===== src/Rewriter/Instrument/Indexed/Targets.antt =====
-- `reference` in `instrument` of sdk/typescript/rewriter.ts: where a function used as a value leads.
use capnpc_wasm.Common.{
  ℕ, zero, suc, ◌+◌, ◌≤◌, ◌<◌, ◌≡◌, ◌≢◌, ◌↔◌, ◌⊎◌, inl, inr, leb→le, refl, sym, ap, ◌∙◌, subst,
  Bool, true, false, Option, none, some, List, [], ◌∷◌, ◌++◌, arith, leb as le_b, ◌==◌,
  if◌then◌else◌, length, get_elem?, All,
}
use capnpc_wasm.Common.Result.{Error, Result, ok, err, type_error}
use capnpc_wasm.Rewriter.Reader.{Reader}
use capnpc_wasm.Rewriter.Instrument.Pass.{State, pure, throw_if, get, modify, ◌>>=◌}
use capnpc_wasm.Rewriter.Instrument.Parts.{lookup, thunk_for, reference, next_thunk}
use capnpc_wasm.Rewriter.Instrument.Triple.{Lands}
use capnpc_wasm.Rewriter.Instrument.Indexed.{
  Indices, indices, IsIndexed, IsInside, IsTarget, of_defined, of_host, of_thunk, thunk_index,
  Extends, get_elem?-front, Referred, reference-Triple,
}

get_elem?-below :
    {A : Type 0} (xs : List A) (k : ℕ) (x : A) → get_elem? xs k ≡ some x → k < length xs
get_elem?-below [] k x e = cc
get_elem?-below (y ∷ xs) zero x e = omega arith
get_elem?-below (y ∷ xs) (suc k) x e = omega (arith, get_elem?-below xs k x e)

same_element :
    (xs : List ℕ) (k l x y : ℕ) → get_elem? xs k ≡ some x → get_elem? xs l ≡ some y → k ≡ l → x ≡ y
same_element xs k l x y e f g = cc

module _ (i : Indices) where
  -- A function of the module, imported or defined.
  abbrev IsFunction : ℕ → Type 0
  IsFunction index = index < i.imported + i.defined

  target-injective :
      (a b t u : ℕ) → IsFunction a → IsFunction b → IsTarget i a t → IsTarget i b u → t ≡ u → a ≡ b
  target-injective a b t u k l (of_defined m) (of_defined n) e = omega arith
  target-injective a b t u k l (of_defined m) (of_host n d) e = absurd (omega arith)
  target-injective a b t u k l (of_defined m) (of_thunk j n z f) e = absurd (omega arith)
  target-injective a b t u k l (of_host m d) (of_defined n) e = absurd (omega arith)
  target-injective a b t u k l (of_host m d) (of_host n c) e = e
  target-injective a b t u k l (of_host m d) (of_thunk j n z f) e = absurd (omega arith)
  target-injective a b t u k l (of_thunk j m z f) (of_defined n) e = absurd (omega arith)
  target-injective a b t u k l (of_thunk j m z f) (of_host n d) e = absurd (omega arith)
  target-injective a b t u k l (of_thunk j m z f) (of_thunk h n y g) e =
      same_element i.thunk_imports j h a b f g (omega arith)

  target-range :
      (a t : ℕ)
      → IsFunction a
      → IsTarget i a t
      → (t ≢ i.imported) × (t < thunk_index i (length i.thunk_imports))
  target-range a t k (of_defined m) = (λ e. omega arith, omega arith)
  target-range a t k (of_host m d) = (λ e. omega arith, omega arith)
  target-range a t k (of_thunk j m z f) =
      let l = get_elem?-below i.thunk_imports j a f in (λ e. omega arith, omega (arith, l))

  target_unique : (a t u : ℕ) → IsIndexed i → IsTarget i a t → IsTarget i a u → t ≡ u
  target_unique a t u h (of_defined m) (of_defined n) = refl
  target_unique a t u h (of_defined m) (of_host n d) = absurd (omega arith)
  target_unique a t u h (of_defined m) (of_thunk j n z f) = absurd (omega arith)
  target_unique a t u h (of_host m d) (of_defined n) = absurd (omega arith)
  target_unique a t u h (of_host m d) (of_host n c) = refl
  target_unique a t u h (of_host m d) (of_thunk j n z f) = absurd (omega arith)
  target_unique a t u h (of_thunk j m z f) (of_defined n) = absurd (omega arith)
  target_unique a t u h (of_thunk j m z f) (of_host n d) = absurd (omega arith)
  target_unique a t u h (of_thunk j m z f) (of_thunk k n y g) =
      some_equal (sym (h.numbered j a f).1 ∙ (h.numbered k a g).1)
    where
      some_equal : {m n : ℕ} → some m ≡ some n → m ≡ n
      some_equal e = cc

-- What is a target stays one where thunks are added.
IsTarget-later : (i j : Indices) (a t : ℕ) → Extends i j → IsTarget i a t → IsTarget j a t
IsTarget-later i j a t x (of_defined m) = of_defined (omega (arith, x.imported))
IsTarget-later i j a t x (of_host m d) =
    of_host (omega (arith, x.imported)) (omega (arith, x.defined))
IsTarget-later i j a t x (of_thunk k m z f) =
    let e : thunk_index j k ≡ thunk_index i k = omega (arith, x.imported, x.defined) in
    subst (λ t. IsTarget j a t) e
      (of_thunk k (omega (arith, x.imported)) (omega (arith, x.defined)) (
        subst (λ l. get_elem? l k ≡ some a) (sym x.thunks)
          (get_elem?-front i.thunk_imports x.more k a f)))

-- What a reference that returns has found.
found :
    (order index : ℕ) (r : Reader) (s s' : State) (p q target : ℕ) (late : 7 ≤ order)
    → p ≤ r.end
    → (h : IsInside order s) → reference index r s p ≡ ok (target, s', q)
    → Referred order late index s h target s'
found order index r s s' p q target late inside h e =
    (subst (λ x. Lands (Referred order late index s h) r.end p x) e
      ((reference-Triple order late index s h).runs r s p inside refl)).2

-- Two functions of the module that are used as values, one after the other in the sections from the
-- globals on: their references are written as the same index exactly where they are the same
-- function. Each index written is in the range of the functions of the module written, and neither
-- is that of the added import.
pub references_distinct :
    (order a b : ℕ) (r r' : Reader) (s s' s'' : State) (p p' q q' t u : ℕ)
    → 7 ≤ order
    → p ≤ r.end
    → p' ≤ r'.end
    → IsInside order s
    → a < s.imported_functions + s.defined_functions
    → b < s.imported_functions + s.defined_functions
    → reference a r s p ≡ ok (t, s', q)
    → reference b r' s' p' ≡ ok (u, s'', q')
    → ((t ≡ u) ↔ (a ≡ b))
      × (t ≢ s.imported_functions)
      × (u ≢ s.imported_functions)
      × (t < thunk_index (indices s'') (length s''.thunk_imports))
      × (u < thunk_index (indices s'') (length s''.thunk_imports))
references_distinct order a b r r' s s' s'' p p' q q' t u late inside inside' h k l e f =
    let (h', at, x) = found order a r s s' p q t late inside h e in
    let (h'', at', x') = found order b r' s' s'' p' q' u late inside' h' f in
    let j : Indices = indices s'' in
    let k' : a < j.imported + j.defined =
      omega (arith, k, x.imported, x.defined, x'.imported, x'.defined) in
    let l' : b < j.imported + j.defined =
      omega (arith, l, x.imported, x.defined, x'.imported, x'.defined) in
    let at'' = IsTarget-later (indices s') j a t x' at in
    let first = target-range j a t k' at'' in
    let second = target-range j b u l' at' in
    (
      (
        λ g. target-injective j a b t u k' l' at'' at' g,
        λ g. target_unique j b t u h''.0.0 (subst (λ i. IsTarget j i t) g at'') at',
      ),
      λ g. first.0 (omega (arith, g, x.imported, x'.imported)),
      λ g. second.0 (omega (arith, g, x.imported, x'.imported)),
      first.1,
      second.1,
    )

lookup_absent :
    (i : Indices) (index : ℕ)
    → IsIndexed i
    → (lookup index i.thunk_of ≡ none) ↔ All (λ j. j ≢ index) i.thunk_imports
lookup_absent i index h = (
  λ e. all i.thunk_imports λ k f. cc (e, (h.numbered k index f).1),
  λ a. go a (lookup index i.thunk_of) refl,
)
  where
    all : (xs : List ℕ) → ((k : ℕ) → get_elem? xs k ≢ some index) → All (λ j. j ≢ index) xs
    all [] g = tt
    all (x ∷ xs) g = (λ e. g 0 (ap some e), all xs λ k. g (suc k))

    apart : (xs : List ℕ) (k : ℕ) → All (λ j. j ≢ index) xs → get_elem? xs k ≢ some index
    apart [] k a e = cc
    apart (x ∷ xs) zero a e = a.0 (cc)
    apart (x ∷ xs) (suc k) a e = apart xs k a.1 e

    go :
        All (λ j. j ≢ index) i.thunk_imports
        → (found : Option ℕ) → lookup index i.thunk_of ≡ found
        → found ≡ none
    go a none e = refl
    go a (some t) e = let at = h.known index t e in absurd (apart i.thunk_imports at.0 a at.1)

err_inj : (e f : Error) → ◌≡◌ {A = Result (ℕ × State × ℕ)} (err e) (err f) → e ≡ f
err_inj e f h = cc

abbrev undeclared : Error
undeclared = type_error "undeclared Wasm function reference"

-- An imported function of a module with code, where the thunks have been fixed and none is for it.
abbrev pub IsUndeclared : ℕ → State → Type 0
IsUndeclared index s =
    (index < s.imported_functions)
    × (0 < s.defined_functions)
    × (s.sealed ≡ true)
    × All (λ i. i ≢ index) s.thunk_imports

-- A reference that returns an index, or that throws for an undeclared function.
abbrev Refers : ℕ → State → Result (ℕ × State × ℕ) → Type 0
Refers index s result =
    (¬ IsUndeclared index s × ((x : ℕ × State × ℕ) × (result ≡ ok x)))
    ⊎ (IsUndeclared index s × (result ≡ err undeclared))

reference-Refers :
    (order index : ℕ) (r : Reader) (s : State) (p : ℕ)
    → IsInside order s
    → Refers index s (reference index r s p)
unfolding reference ◌>>=◌ get throw_if modify pure
reference-Refers order index r s p h =
    go (le_b s.imported_functions index) refl (s.defined_functions == 0) refl
      (lookup index s.thunk_of) refl s.sealed refl (lookup_absent (indices s) index h.0.0)
  where
    go :
        (high : Bool)
        → le_b s.imported_functions index ≡ high
        → (host : Bool) → (s.defined_functions == 0) ≡ host
        → (found : Option ℕ) → lookup index s.thunk_of ≡ found
        → (fixed : Bool) → s.sealed ≡ fixed
        → (found ≡ none) ↔ All (λ j. j ≢ index) s.thunk_imports
        → Refers index s (
            (if high then pure (index + 1) else if host then pure index else thunk_for index found)
              r s p)
    go true e host e' found f fixed g k =
        inl (λ x. omega (arith, x.0, leb→le s.imported_functions index e), (_, refl))
    go false e true e' found f fixed g k = inl (λ x. ground arith, (_, refl))
    go false e false e' (some t) f fixed g k = inl (λ x. cc (k.1 x.3), (_, refl))
    go false e false e' none f true g k =
        inr ((ground arith, ground arith, g, k.0 refl), simp g refl)
    go false e false e' none f false g k =
        let s' : State = record s {
          thunk_of = (index, next_thunk s) ∷ s.thunk_of;
          thunk_imports = s.thunk_imports ++ (index ∷ []);
        } in
        inl (λ x. cc (x.2, g), ((next_thunk s, s', p), simp g refl))

-- Inside the sections, a reference is refused exactly where it is to an imported function of a module
-- with code, the thunks have been fixed, and no thunk is for that import. It throws no other error
-- than that of an undeclared reference, whatever the error asked for, and where it is not refused it
-- returns: with the index of the function itself, moved by the added import where it is a function of
-- the module, or of the thunk for it, which is in the table from then on.
pub reference_refused_iff :
    (order index : ℕ) (r : Reader) (s : State) (p : ℕ) (e : Error)
    → 7 ≤ order
    → p ≤ r.end
    → IsInside order s
    → ((reference index r s p ≡ err e)
        ↔ (IsUndeclared index s × (e ≡ type_error "undeclared Wasm function reference")))
      × (¬ IsUndeclared index s
          → (t : ℕ) × (s' : State) × (q : ℕ) × (reference index r s p ≡ ok (t, s', q))
            × IsTarget (indices s') index t)
reference_refused_iff order index r s p e late inside h =
    elim (reference-Refers order index r s p h) [
      | inl (declared, (x, f)) ↦ (
        (λ g. absurd (cc (f, g)), λ g. absurd (declared g.0)),
        λ d. (x.0, x.1, x.2, f, (found order index r s x.1 p x.2 x.0 late inside h f).1),
      )
      | inr (u, f) ↦ (
        (λ g. (u, err_inj e undeclared (sym g ∙ f)), λ g. f ∙ ap err (sym g.1)),
        λ d. absurd (d u),
      )
    ]
