-- ===== src/Rewriter/Instrument/Alike.antt =====
-- Two ways to write the inner functions of `instrument` in sdk/typescript/rewriter.ts, run side by
-- side: they read the same bytes, throw the same errors and leave the same variables.
use capnpc_wasm.Common.{
  ℕ, ◌+◌, ◌≤◌, ◌<◌, ◌≡◌, refl, subst, Bool, true, false, arith, leb as le_b, if◌then◌else◌, get_or,
}
use capnpc_wasm.Common.Result.{Result, ok, err, stuck, type_error}
use capnpc_wasm.Rewriter.Reader
use capnpc_wasm.Rewriter.Reader.{Reader}
use capnpc_wasm.Rewriter.Instrument.Pass.{State, Pass, read, with_state, ◌>>=◌}
use capnpc_wasm.Rewriter.Instrument.Triple.{Lands}
use capnpc_wasm.Rewriter.Instrument.Keeps.{Keeps}

module _ {A B : Type 0} where
  abbrev pub Alike :
      (A → B → State → ℕ → Type 0)
      → ℕ
      → ℕ
      → Result (A × State × ℕ)
      → Result (B × State × ℕ)
      → Type 0
  Alike Q end p (ok (a, s, q)) (ok (b, t, i)) = (s ≡ t) × (q ≡ i) × (p ≤ q) × (q ≤ end) × Q a b s q
  Alike Q end p (err e) (err e') = e ≡ e'
  Alike Q end p stuck stuck = Unit {0}
  Alike Q end p _ _ = ⊥

  pub Alike-later :
      (Q : A → B → State → ℕ → Type 0) (end p q : ℕ) (x : Result (A × State × ℕ))
      (y : Result (B × State × ℕ))
      → p ≤ q
      → Alike Q end q x y
      → Alike Q end p x y
  Alike-later Q end p q (ok (a, s, i)) (ok (b, t, j)) l (e, f, g, h, k) = (e, f, omega arith, h, k)
  Alike-later Q end p q (err e) (err e') l k = k
  Alike-later Q end p q stuck stuck l k = tt
  Alike-later Q end p q (err e) stuck l k = elim k [ ]
  Alike-later Q end p q (err e) (ok _) l k = elim k [ ]
  Alike-later Q end p q stuck (err e') l k = elim k [ ]
  Alike-later Q end p q stuck (ok _) l k = elim k [ ]
  Alike-later Q end p q (ok (a, s, i)) (err e') l k = elim k [ ]
  Alike-later Q end p q (ok (a, s, i)) stuck l k = elim k [ ]

module _ {A B C D : Type 0} (R : A → B → State → ℕ → Type 0) (Q : C → D → State → ℕ → Type 0)
    (m : Pass A) (m' : Pass B) (f : A → Pass C) (f' : B → Pass D) (r : Reader) where
  pub Alike-bind :
      (s : State) (p : ℕ)
      → Alike R r.end p (m r s p) (m' r s p)
      → ((a : A) (b : B) (t : State) (q : ℕ)
          → p ≤ q
          → q ≤ r.end
          → R a b t q
          → Alike Q r.end q (f a r t q) (f' b r t q))
      → Alike Q r.end p ((m >>= f) r s p) ((m' >>= f') r s p)
  unfolding ◌>>=◌
  Alike-bind s p h k = go (m r s p) (m' r s p) h
    where
      go :
          (x : Result (A × State × ℕ)) (y : Result (B × State × ℕ))
          → Alike R r.end p x y
          → Alike Q r.end p
              (elim x [ ok (a, s', q) ↦ f a r s' q | err e ↦ err e | stuck ↦ stuck ])
              (elim y [ ok (a, s', q) ↦ f' a r s' q | err e ↦ err e | stuck ↦ stuck ])
      go (ok (a, s, q)) (ok (b, t, i)) (e, e', l, j, g) = Alike-later Q r.end p q _ _ l (
          subst (λ t. Alike Q r.end q (f a r s q) (f' b r t i)) e
            (subst (λ i. Alike Q r.end q (f a r s q) (f' b r s i)) e' (k a b s q l j g)))
      go (err e) (err e') g = g
      go stuck stuck g = tt
      go (err e) stuck g = elim g [ ]
      go (err e) (ok _) g = elim g [ ]
      go stuck (err e') g = elim g [ ]
      go stuck (ok _) g = elim g [ ]
      go (ok (a, s, q)) (err e') g = elim g [ ]
      go (ok (a, s, q)) stuck g = elim g [ ]

module _ {A : Type 0} where
  -- The same code on both sides.
  pub Alike-same :
      (P : State → Type 0) (m : Pass A) (r : Reader) (s : State) (p : ℕ)
      → Keeps P m
      → p ≤ r.end
      → P s
      → Alike (λ a b t q. (a ≡ b) × P t) r.end p (m r s p) (m r s p)
  Alike-same P m r s p k l h = go (m r s p) (k.runs r s p l h)
    where
      go :
          (x : Result (A × State × ℕ))
          → Lands (λ a. P) r.end p x
          → Alike (λ a b t q. (a ≡ b) × P t) r.end p x x
      go (ok (a, t, q)) (i, j, g) = (refl, refl, i, j, (refl, g))
      go (err e) g = refl
      go stuck g = elim g [ ]

module _ {A B : Type 0} (Q : A → B → State → ℕ → Type 0) where
  pub Alike-if :
      (b : Bool) (m n : Pass A) (m' n' : Pass B) (r : Reader) (s : State) (p : ℕ)
      → Alike Q r.end p (m r s p) (m' r s p)
      → Alike Q r.end p (n r s p) (n' r s p)
      → Alike Q r.end p ((if b then m else n) r s p) ((if b then m' else n') r s p)
  Alike-if true m n m' n' r s p k l = k
  Alike-if false m n m' n' r s p k l = l

module _ {A C D : Type 0} (P : State → Type 0) (Q : C → D → State → ℕ → Type 0) (m : Pass A)
    (f : A → Pass C) (f' : A → Pass D) (r : Reader) where
  -- Both sides begin with the same code.
  pub Alike-after :
      (s : State) (p : ℕ)
      → Keeps P m
      → p ≤ r.end
      → P s
      → ((a : A) (t : State) (q : ℕ)
          → p ≤ q
          → q ≤ r.end
          → P t
          → Alike Q r.end q (f a r t q) (f' a r t q))
      → Alike Q r.end p ((m >>= f) r s p) ((m >>= f') r s p)
  Alike-after s p k l h g =
      Alike-bind (λ a b t q. (a ≡ b) × P t) Q m m f f' r s p (Alike-same P m r s p k l h)
        λ a b t q i j e. subst (λ c. Alike Q r.end q (f a r t q) (f' c r t q)) e.0 (g a t q i j e.1)

-- The two sides from one place, with the code still to be seen.
pub record SideBySide {A B : Type 0} (Q : A → B → State → ℕ → Type 0) (r : Reader) (s : State)
    (p : ℕ) (m : Pass A) (m' : Pass B) : Type 0 where
  pub alike : Alike Q r.end p (m r s p) (m' r s p)

pub SideBySide-if :
    {A B : Type 0} {Q : A → B → State → ℕ → Type 0} {r : Reader} {s : State} {p : ℕ} (b : Bool)
    (m n : Pass A) (m' n' : Pass B)
    → SideBySide Q r s p m m'
    → SideBySide Q r s p n n'
    → SideBySide Q r s p (if b then m else n) (if b then m' else n')
SideBySide-if true m n m' n' k l = k
SideBySide-if false m n m' n' k l = l

-- A byte is read on both sides.
module _ {C D : Type 0} (Q : C → D → State → ℕ → Type 0) (f : ℕ → Pass C) (f' : ℕ → Pass D)
    (r : Reader) where
  pub Alike-byte :
      (s : State) (p : ℕ)
      → ((a : ℕ) → p < r.end → Alike Q r.end (p + 1) (f a r s (p + 1)) (f' a r s (p + 1)))
      → Alike Q r.end p ((read Reader.byte >>= f) r s p) ((read Reader.byte >>= f') r s p)
  unfolding ◌>>=◌ read Reader.byte
  Alike-byte s p k = go (le_b r.end p) refl
    where
      byte_or : Bool → Result (ℕ × State × ℕ)
      byte_or b =
          with_state s (
            if b then err (type_error "truncated Wasm section") else ok (get_or r.bytes p 0, p + 1))

      go :
          (b : Bool)
          → le_b r.end p ≡ b
          → Alike Q r.end p
              (elim (byte_or b) [ ok (a, s', q) ↦ f a r s' q | err e ↦ err e | stuck ↦ stuck ])
              (elim (byte_or b) [ ok (a, s', q) ↦ f' a r s' q | err e ↦ err e | stuck ↦ stuck ])
      go true e = refl
      go false e =
          let lt : p < r.end = ground arith in
          Alike-later Q r.end p (p + 1) _ _ (omega arith) (k _ lt)
