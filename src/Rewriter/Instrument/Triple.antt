-- ===== src/Rewriter/Instrument/Triple.antt =====
-- What the inner functions of `instrument` in sdk/typescript/rewriter.ts do to the variables that
-- they share: rules for each way in which they are put together.
use capnpc_wasm.Common.{
  ℕ, zero, suc, ◌+◌, ◌≤◌, ◌<◌, ◌≡◌, ◌≢◌, refl, ap, subst, Bool, true, false, Option, arith,
  leb as le_b, if◌then◌else◌, get_or,
}
use capnpc_wasm.Common.Result.{Error, Result, ok, err, stuck, type_error}
use capnpc_wasm.Rewriter.Reader
use capnpc_wasm.Rewriter.Reader.{Reader, Reading}
use capnpc_wasm.Rewriter.Reader.Locality.{Ahead-le}
use capnpc_wasm.Rewriter.Types.Closed.{IsParser}
use capnpc_wasm.Rewriter.Instrument.Pass.{
  State, Pass, pure, throw, throw_if, read, get, modify, position, end_position, subarray,
  with_state, at_position, caught, inside, try, times, ◌>>=◌,
}

module _ {A : Type 0} where
  -- The code ends, within `end` and not before `p`; where it returns, `Q` holds.
  abbrev pub Lands : (A → State → Type 0) → ℕ → ℕ → Result (A × State × ℕ) → Type 0
  Lands Q end p (ok (a, s, q)) = (p ≤ q) × (q ≤ end) × Q a s
  Lands Q end p (err e) = Unit {0}
  Lands Q end p stuck = ⊥

  pub Lands-later :
      (Q : A → State → Type 0) (end p q : ℕ) (x : Result (A × State × ℕ))
      → p ≤ q
      → Lands Q end q x
      → Lands Q end p x
  Lands-later Q end p q (ok (a, s, i)) h (l, e, k) = (omega arith, e, k)
  Lands-later Q end p q (err e) h k = tt
  Lands-later Q end p q stuck h k = elim k [ ]

  pub Lands-weaken :
      (Q R : A → State → Type 0) (end p : ℕ) (x : Result (A × State × ℕ))
      → ((a : A) (s : State) → Q a s → R a s)
      → Lands Q end p x
      → Lands R end p x
  Lands-weaken Q R end p (ok (a, s, i)) f (l, e, k) = (l, e, f a s k)
  Lands-weaken Q R end p (err e) f k = tt
  Lands-weaken Q R end p stuck f k = elim k [ ]

  -- Where `P` holds before, the code ends inside its reader, and where it returns, `Q` holds.
  pub record Triple (P : State → Type 0) (m : Pass A) (Q : A → State → Type 0) : Type 0 where
    pub runs : (r : Reader) (s : State) (p : ℕ) → p ≤ r.end → P s → Lands Q r.end p (m r s p)

  -- A read that ends between its start and the end of its reader.
  pub record IsWithin (m : Reading A) : Type 0 where
    pub ends : (r : Reader) (p : ℕ) → p ≤ r.end → m r p ≢ stuck
    pub bounds :
        (r : Reader) (p : ℕ) (a : A) (q : ℕ) → p ≤ r.end → m r p ≡ ok (a, q) → (p ≤ q) × (q ≤ r.end)

  pub IsParser-IsWithin : (m : Reading A) → IsParser m → IsWithin m
  IsParser-IsWithin m k = record {
    ends = λ r p h. k.total.ends r p;
    bounds = λ r p a q h e.
        let c = k.reads.at r p a q h e in
        let l = Ahead-le r p c.taken c.ahead in (omega (arith, c.moved), omega (arith, c.moved, l));
  }

module _ {A : Type 0} (P : State → Type 0) where
  pub Triple-pure :
      (Q : A → State → Type 0) (a : A) → ((s : State) → P s → Q a s) → Triple P (pure a) Q
  unfolding pure
  Triple-pure Q a f = record { runs = λ r s p h k. (omega arith, h, f s k) }

  pub Triple-throw : (Q : A → State → Type 0) (e : Error) → Triple P (throw e) Q
  unfolding throw
  Triple-throw Q e = record { runs = λ r s p h k. tt }

  pub Triple-read : (m : Reading A) → IsWithin m → Triple P (read m) (λ a. P)
  unfolding read
  Triple-read m w = record {
    runs = λ r s p h k. go r s p k (m r p) (w.ends r p h) (λ a q. w.bounds r p a q h);
  }
    where
      go :
          (r : Reader) (s : State) (p : ℕ)
          → P s
          → (x : Result (A × ℕ)) → x ≢ stuck
          → ((a : A) (q : ℕ) → x ≡ ok (a, q) → (p ≤ q) × (q ≤ r.end))
          → Lands (λ (a : A). P) r.end p (with_state s x)
      go r s p k (ok (a, q)) n b = ((b a q refl).0, (b a q refl).1, k)
      go r s p k (err e) n b = tt
      go r s p k stuck n b = absurd (n refl)

  pub Triple-if :
      (Q : A → State → Type 0) (b : Bool) (m n : Pass A)
      → Triple P m Q
      → Triple P n Q
      → Triple P (if b then m else n) Q
  Triple-if Q true m n k l = k
  Triple-if Q false m n k l = l

  pub Triple-inside :
      (Q : A → State → Type 0) (start end : ℕ) (m : Pass A)
      → start ≤ end
      → Triple P m Q
      → Triple P (inside start end m) Q
  unfolding inside
  Triple-inside Q start end m l t = record {
    runs = λ r s p h k.
        go r.end p h (m (record { bytes = r.bytes; end = end }) s start)
          (t.runs (record { bytes = r.bytes; end = end }) s start l k);
  }
    where
      go :
          (end' p : ℕ)
          → p ≤ end'
          → (x : Result (A × State × ℕ)) → Lands Q end start x
          → Lands Q end' p (at_position p x)
      go end' p h (ok (a, s, q)) (i, j, k) = (omega arith, h, k)
      go end' p h (err e) k = tt
      go end' p h stuck k = elim k [ ]

module _ {A : Type 0} (P : State → Type 0) (Q R : A → State → Type 0) (m : Pass A) where
  pub Triple-weaken : ((a : A) (s : State) → Q a s → R a s) → Triple P m Q → Triple P m R
  Triple-weaken f t = record {
    runs = λ r s p h k. Lands-weaken Q R r.end p (m r s p) f (t.runs r s p h k);
  }

module _ {A B : Type 0} (P : State → Type 0) (R : A → State → Type 0) (Q : B → State → Type 0)
    (m : Pass A) (f : A → Pass B) where
  pub Lands-bind :
      (r : Reader) (s : State) (p : ℕ)
      → Lands R r.end p (m r s p)
      → ((a : A) (s' : State) (q : ℕ) → p ≤ q → q ≤ r.end → R a s' → Lands Q r.end q (f a r s' q))
      → Lands Q r.end p ((m >>= f) r s p)
  unfolding ◌>>=◌
  Lands-bind r s p l k = go (m r s p) l
    where
      go :
          (x : Result (A × State × ℕ))
          → Lands R r.end p x
          → Lands Q r.end p (elim x [ ok (a, s', q) ↦ f a r s' q | err e ↦ err e | stuck ↦ stuck ])
      go (ok (a, s', q)) (i, j, h) = Lands-later Q r.end p q _ i (k a s' q i j h)
      go (err e) h = tt
      go stuck h = elim h [ ]

  pub Triple-bind : Triple P m R → ((a : A) → Triple (R a) (f a) Q) → Triple P (m >>= f) Q
  Triple-bind t k = record {
    runs = λ r s p h g. Lands-bind r s p (t.runs r s p h g) λ a s' q i j. (k a).runs r s' q j;
  }

module _ {A : Type 0} where
  pub Triple-times :
      (P : State → Type 0) (count : ℕ) (body : A → Pass A)
      → ((a : A) → Triple P (body a) (λ b. P))
      → (a : A) → Triple P (times count body a) (λ b. P)
  unfolding times
  Triple-times P zero body k a = Triple-pure P (λ b. P) a (λ s h. h)
  Triple-times P (suc count) body k a =
      Triple-bind P (λ b. P) (λ b. P) (body a) (λ b. times count body b) (k a)
        (λ b. Triple-times P count body k b)

  -- A loop whose rounds the condition counts.
  pub Triple-times-count :
      (P : ℕ → State → Type 0) (n count : ℕ) (body : A → Pass A)
      → ((i : ℕ) (a : A) → Triple (P i) (body a) (λ b. P (i + 1)))
      → (a : A) → Triple (P n) (times count body a) (λ b. P (n + count))
  unfolding times
  Triple-times-count P n zero body k a =
      let e : n ≡ n + 0 = omega arith in
      Triple-pure (P n) (λ b. P (n + 0)) a (λ s h. subst (λ i. P i s) e h)
  Triple-times-count P n (suc count) body k a =
      let e : n + 1 + count ≡ n + suc count = omega arith in
      Triple-bind (P n) (λ b. P (n + 1)) (λ b. P (n + suc count)) (body a) (λ b. times count body b)
        (k n a)
        (λ b.
          subst (λ i. Triple (P (n + 1)) (times count body b) (λ c. P i)) e
            (Triple-times-count P (n + 1) count body k b))

  pub Lands-caught :
      (P : State → Type 0) (m : Pass (Option A)) (r : Reader) (s : State) (p : ℕ)
      → p ≤ r.end
      → P s
      → Lands (λ a. P) r.end p (m r s p)
      → Lands (λ a. P) r.end p (try m r s p)
  unfolding try
  Lands-caught P m r s p h k l = go (m r s p) l
    where
      go :
          (x : Result (Option A × State × ℕ))
          → Lands (λ a. P) r.end p x
          → Lands (λ a. P) r.end p (caught s p x)
      go (ok (a, s', q)) l = l
      go (err e) l = (omega arith, h, k)
      go stuck l = elim l [ ]

  pub Triple-try :
      (P : State → Type 0) (m : Pass (Option A)) → Triple P m (λ a. P) → Triple P (try m) (λ a. P)
  Triple-try P m t = record { runs = λ r s p h k. Lands-caught P m r s p h k (t.runs r s p h k) }

module _ (P : State → Type 0) where
  pub Triple-throw_if : (bad : Bool) (e : Error) → Triple P (throw_if bad e) (λ u. P)
  unfolding throw_if
  Triple-throw_if true e = record { runs = λ r s p h k. tt }
  Triple-throw_if false e = record { runs = λ r s p h k. (omega arith, h, k) }

  -- What a passed check has found.
  pub Triple-checked :
      (bad : Bool) (e : Error) → Triple P (throw_if bad e) (λ u s. P s × (bad ≡ false))
  unfolding throw_if
  Triple-checked true e = record { runs = λ r s p h k. tt }
  Triple-checked false e = record { runs = λ r s p h k. (omega arith, h, (k, refl)) }

  pub Triple-get : Triple P get (λ a s. P s × (a ≡ s))
  unfolding get
  Triple-get = record { runs = λ r s p h k. (omega arith, h, (k, refl)) }

  pub Triple-modify :
      (Q : State → Type 0) (f : State → State)
      → ((s : State) → P s → Q (f s))
      → Triple P (modify f) (λ u. Q)
  unfolding modify
  Triple-modify Q f k = record { runs = λ r s p h g. (omega arith, h, k s g) }

  pub Triple-position : Triple P position (λ a. P)
  unfolding position
  Triple-position = record { runs = λ r s p h k. (omega arith, h, k) }

  pub Triple-end_position : Triple P end_position (λ a. P)
  unfolding end_position
  Triple-end_position = record { runs = λ r s p h k. (omega arith, h, k) }

  pub Triple-subarray : (start end : ℕ) → Triple P (subarray start end) (λ a. P)
  unfolding subarray
  Triple-subarray start end = record { runs = λ r s p h k. (omega arith, h, k) }

  -- A byte that is read moves the reader.
  pub Lands-byte :
      {B : Type 0} (Q : B → State → Type 0) (f : ℕ → Pass B) (r : Reader) (s : State) (p : ℕ)
      → ((a : ℕ) → p < r.end → Lands Q r.end (p + 1) (f a r s (p + 1)))
      → Lands Q r.end p ((read Reader.byte >>= f) r s p)
  unfolding ◌>>=◌ read Reader.byte
  Lands-byte {B} Q f r s p k = go (le_b r.end p) refl
    where
      go :
          (b : Bool)
          → le_b r.end p ≡ b
          → Lands Q r.end p
              (elim (with_state s (
                if b
                then err (type_error "truncated Wasm section")
                else ok (get_or r.bytes p 0, p + 1))) [
                  | ok (a, s', q) ↦ f a r s' q
                  | err e ↦ err e
                  | stuck ↦ stuck
                ])
      go true e = tt
      go false e =
          let lt : p < r.end = ground arith in
          Lands-later Q r.end p (p + 1) _ (omega arith) (k _ lt)

-- Code that starts in a known state.
module _ {A : Type 0} where
  pub Triple-start :
      (P : State → Type 0) (Q : A → State → Type 0) (f : State → Pass A)
      → ((s : State) → P s → Triple (λ t. s ≡ t) (f s) Q)
      → Triple P (get >>= f) Q
  unfolding ◌>>=◌ get
  Triple-start P Q f k = record { runs = λ r s p h g. (k s g).runs r s p h refl }

  pub Triple-pure-at :
      (s : State) (Q : A → State → Type 0) (a : A) → Q a s → Triple (λ t. s ≡ t) (pure a) Q
  Triple-pure-at s Q a h = Triple-pure (λ t. s ≡ t) Q a λ t e. subst (λ t. Q a t) e h

  pub Triple-if-known :
      (P : State → Type 0) (Q : A → State → Type 0) (b : Bool) (m n : Pass A)
      → (b ≡ true → Triple P m Q)
      → (b ≡ false → Triple P n Q)
      → Triple P (if b then m else n) Q
  Triple-if-known P Q true m n k l = k refl
  Triple-if-known P Q false m n k l = l refl

  pub Triple-checked-at :
      (P : State → Type 0) (Q : A → State → Type 0) (bad : Bool) (e : Error) (k : Unit {0} → Pass A)
      → (bad ≡ false → Triple P (k tt) Q)
      → Triple P (throw_if bad e >>= k) Q
  unfolding ◌>>=◌ throw_if
  Triple-checked-at P Q true e k t = record { runs = λ r s p h g. tt }
  Triple-checked-at P Q false e k t = record { runs = λ r s p h g. (t refl).runs r s p h g }

  pub Triple-modify-at :
      (s : State) (Q : A → State → Type 0) (f : State → State) (k : Unit {0} → Pass A)
      → Triple (λ t. f s ≡ t) (k tt) Q
      → Triple (λ t. s ≡ t) (modify f >>= k) Q
  unfolding ◌>>=◌ modify
  Triple-modify-at s Q f k t = record { runs = λ r s' p h g. t.runs r (f s') p h (ap f g) }
