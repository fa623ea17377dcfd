-- ===== src/Rewriter/Instrument/Keeps.antt =====
-- Code of `instrument` in sdk/typescript/rewriter.ts that keeps a condition on the shared variables,
-- and ends inside its reader.
use capnpc_wasm.Common.{
  ℕ, zero, suc, ◌+◌, ◌≤◌, ◌<◌, ◌≡◌, refl, subst, Bool, true, false, Option, if◌then◌else◌, arith,
}
use capnpc_wasm.Common.Result.{Error, Result, ok, err, stuck}
use capnpc_wasm.Rewriter.Reader
use capnpc_wasm.Rewriter.Reader.{Reader, Reading}
use capnpc_wasm.Rewriter.Instrument.Pass.{
  State, Pass, pure, throw, throw_if, read, get, modify, position, end_position, subarray, inside,
  try, times, ◌>>=◌,
}
use capnpc_wasm.Rewriter.Instrument.Triple.{
  Lands, Lands-bind, Lands-byte, Lands-caught, IsWithin, Triple, Triple-pure, Triple-throw,
  Triple-read, Triple-if, Triple-bind, Triple-throw_if, Triple-modify, Triple-position,
  Triple-end_position, Triple-subarray, Triple-inside, Triple-times, Triple-try, Triple-get,
  Triple-weaken,
}

abbrev pub Keeps : {A : Type 0} → (State → Type 0) → Pass A → Type 0
Keeps P m = Triple P m (λ a. P)

module _ {P : State → Type 0} where
  pub Keeps-pure : {A : Type 0} (a : A) → Keeps P (pure a)
  Keeps-pure a = Triple-pure P (λ a. P) a λ s h. h

  pub Keeps-throw : {A : Type 0} (e : Error) → Keeps P (throw {A = A} e)
  Keeps-throw e = Triple-throw P (λ a. P) e

  pub Keeps-throw_if : (bad : Bool) (e : Error) → Keeps P (throw_if bad e)
  Keeps-throw_if bad e = Triple-throw_if P bad e

  pub Keeps-read : {A : Type 0} (m : Reading A) → IsWithin m → Keeps P (read m)
  Keeps-read m w = Triple-read P m w

  pub Keeps-bind :
      {A B : Type 0} (m : Pass A) (f : A → Pass B)
      → Keeps P m
      → ((a : A) → Keeps P (f a))
      → Keeps P (m >>= f)
  Keeps-bind m f k l = Triple-bind P (λ a. P) (λ a. P) m f k l

  pub Keeps-if :
      {A : Type 0} (b : Bool) (m n : Pass A) → Keeps P m → Keeps P n → Keeps P (if b then m else n)
  Keeps-if b m n k l = Triple-if P (λ a. P) b m n k l

  pub Keeps-get : Keeps P get
  Keeps-get = Triple-weaken P _ (λ s. P) get (λ s t h. h.0) (Triple-get P)

  pub Keeps-modify : (f : State → State) → ((s : State) → P s → P (f s)) → Keeps P (modify f)
  Keeps-modify f k = Triple-modify P P f k

  pub Keeps-position : Keeps P position
  Keeps-position = Triple-position P

  pub Keeps-end_position : Keeps P end_position
  Keeps-end_position = Triple-end_position P

  pub Keeps-subarray : (start end : ℕ) → Keeps P (subarray start end)
  Keeps-subarray start end = Triple-subarray P start end

  pub Keeps-inside :
      {A : Type 0} (start end : ℕ) (m : Pass A)
      → start ≤ end
      → Keeps P m
      → Keeps P (inside start end m)
  Keeps-inside start end m l k = Triple-inside P (λ a. P) start end m l k

  pub Keeps-times :
      {A : Type 0} (count : ℕ) (body : A → Pass A)
      → ((a : A) → Keeps P (body a))
      → (a : A) → Keeps P (times count body a)
  Keeps-times count body k a = Triple-times P count body k a

  pub Keeps-try : {A : Type 0} (m : Pass (Option A)) → Keeps P m → Keeps P (try m)
  Keeps-try m k = Triple-try P m k

bind_assoc :
    {A B C : Type 0} (m : Pass A) (f : A → Pass B) (g : B → Pass C) (r : Reader) (s : State) (p : ℕ)
    → (m >>= λ a. f a >>= g) r s p ≡ ((m >>= f) >>= g) r s p
unfolding ◌>>=◌
bind_assoc {A} {B} {C} m f g r s p = go (m r s p)
  where
    go :
        (x : Result (A × State × ℕ))
        → ◌≡◌ {A = Result (C × State × ℕ)}
            (elim x [ ok (a, s', q) ↦ (f a >>= g) r s' q | err e ↦ err e | stuck ↦ stuck ])
            (elim (elim x as (λ x. Result (B × State × ℕ)) [
              | ok (a, s', q) ↦ f a r s' q
              | err e ↦ err e
              | stuck ↦ stuck
            ])
              as (λ x. Result (C × State × ℕ)) [
                | ok (b, s', q) ↦ g b r s' q
                | err e ↦ err e
                | stuck ↦ stuck
              ])
    go (ok (a, s', q)) = refl
    go (err e) = refl
    go stuck = refl

-- The same of code that has a number of rounds, where fewer bytes than rounds are left.
pub record KeepsFor {A : Type 0} (P : State → Type 0) (rounds : ℕ) (m : Pass A) : Type 0 where
  pub runs :
      (r : Reader) (s : State) (p : ℕ)
      → p ≤ r.end
      → r.end < rounds + p
      → P s
      → Lands (λ a. P) r.end p (m r s p)

module _ {P : State → Type 0} where
  pub KeepsFor-any : {A : Type 0} (n : ℕ) (m : Pass A) → Keeps P m → KeepsFor P n m
  KeepsFor-any n m k = record { runs = λ r s p l f h. k.runs r s p l h }

  pub KeepsFor-none : {A : Type 0} (m : Pass A) → KeepsFor P zero m
  KeepsFor-none m = record { runs = λ r s p l f h. absurd (omega arith) }

  pub KeepsFor-bind :
      {A B : Type 0} (n : ℕ) (m : Pass A) (f : A → Pass B)
      → KeepsFor P n m
      → ((a : A) → KeepsFor P n (f a))
      → KeepsFor P n (m >>= f)
  KeepsFor-bind n m f k l = record {
    runs = λ r s p b e h.
        Lands-bind P (λ a. P) (λ a. P) m f r s p (k.runs r s p b e h)
          λ a s' q i j g. (l a).runs r s' q j (omega arith) g;
  }

  -- A round reads a byte.
  pub KeepsFor-byte :
      {A : Type 0} (n : ℕ) (f : ℕ → Pass A)
      → ((a : ℕ) → KeepsFor P n (f a))
      → KeepsFor P (suc n) (read Reader.byte >>= f)
  KeepsFor-byte n f k = record {
    runs = λ r s p b e h.
        Lands-byte P (λ a. P) f r s p λ a l. (k a).runs r s (p + 1) (omega arith) (omega arith) h;
  }

  pub KeepsFor-if :
      {A : Type 0} (n : ℕ) (b : Bool) (m m' : Pass A)
      → KeepsFor P n m
      → KeepsFor P n m'
      → KeepsFor P n (if b then m else m')
  KeepsFor-if n true m m' k l = k
  KeepsFor-if n false m m' k l = l

  pub KeepsFor-try :
      {A : Type 0} (n : ℕ) (m : Pass (Option A)) → KeepsFor P n m → KeepsFor P n (try m)
  KeepsFor-try n m k = record {
    runs = λ r s p b e h. Lands-caught P m r s p b h (k.runs r s p b e h);
  }

  -- As many rounds as the reader's end, and one more.
  pub Keeps-rounds :
      {A : Type 0} (f : ℕ → Pass A)
      → ((end : ℕ) → KeepsFor P (suc end) (f end))
      → Keeps P (end_position >>= f)
  unfolding ◌>>=◌ end_position
  Keeps-rounds f k = record { runs = λ r s p b h. (k r.end).runs r s p b (omega arith) h }

  -- A loop with its rounds, and what follows it.
  pub Triple-rounds :
      {A B : Type 0} (Q : B → State → Type 0) (m : ℕ → Pass A) (f : A → Pass B)
      → ((end : ℕ) → KeepsFor P (suc end) (m end))
      → ((a : A) → Triple P (f a) Q)
      → Triple P (end_position >>= λ end. m end >>= f) Q
  unfolding ◌>>=◌ end_position
  Triple-rounds Q m f k l = record {
    runs = λ r s p b h.
        Lands-bind P (λ a. P) Q (m r.end) f r s p ((k r.end).runs r s p b (omega arith) h)
          λ a s' q i j g. (l a).runs r s' q j g;
  }

  pub KeepsFor-assoc :
      {A B C : Type 0} (n : ℕ) (m : Pass A) (f : A → Pass B) (g : B → Pass C)
      → KeepsFor P n (m >>= λ a. f a >>= g)
      → KeepsFor P n ((m >>= f) >>= g)
  KeepsFor-assoc n m f g k = record {
    runs = λ r s p b e h.
        subst (λ x. Lands (λ a. P) r.end p x) (bind_assoc m f g r s p) (k.runs r s p b e h);
  }
