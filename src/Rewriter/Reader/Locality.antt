-- ===== src/Rewriter/Reader/Locality.antt =====
-- What a read consumes, and that a successful read depends on the consumed bytes alone.
use capnpc_wasm.Common.{
  ℕ, zero, suc, ◌+◌, ◌≤◌, ◌<◌, ◌≡◌, refl, ap, ◌∙◌, subst, Bool, true, false, List, [], ◌∷◌, ◌++◌,
  arith, get_or, length, length-append, if◌then◌else◌,
}
use capnpc_wasm.Common.Result.{Error, Result, ok, err, stuck}
use capnpc_wasm.Rewriter.Reader.{
  Reader, Reading, pure, throw, throw_if, position, end_position, ◌>>=◌, ◌>>◌, byte, u32_loop, u32,
  s32_loop, s32, leb, skip, out_of_fuel,
}

-- `xs` stands at position `p`, before the end.
abbrev pub Ahead : Reader → ℕ → List ℕ → Type 0
Ahead r p [] = p ≤ r.end
Ahead r p (x ∷ xs) = (p < r.end) × (get_or r.bytes p 0 ≡ x) × Ahead r (p + 1) xs

pub Ahead-le : (r : Reader) (p : ℕ) (xs : List ℕ) → Ahead r p xs → p + length xs ≤ r.end
Ahead-le r p [] h = omega arith
Ahead-le r p (x ∷ xs) (a, b, h) = omega (arith, Ahead-le r (p + 1) xs h)

Ahead-at : (r : Reader) (p q : ℕ) (xs : List ℕ) → p ≡ q → Ahead r p xs → Ahead r q xs
Ahead-at r p q xs e h = subst (λ t. Ahead r t xs) e h

pub Ahead-append :
    (r : Reader) (p : ℕ) (xs ys : List ℕ)
    → Ahead r p xs
    → Ahead r (p + length xs) ys
    → Ahead r p (xs ++ ys)
Ahead-append r p [] ys h k = Ahead-at r (p + 0) p ys (omega arith) k
Ahead-append r p (x ∷ xs) ys (a, b, h) k =
    (a, b, Ahead-append r (p + 1) xs ys h (Ahead-at r _ (p + 1 + length xs) ys (omega arith) k))

pub Ahead-front : (r : Reader) (p : ℕ) (xs ys : List ℕ) → Ahead r p (xs ++ ys) → Ahead r p xs
Ahead-front r p [] [] h = h
Ahead-front r p [] (y ∷ ys) h = omega arith
Ahead-front r p (x ∷ xs) ys (a, b, h) = (a, b, Ahead-front r (p + 1) xs ys h)

pub Ahead-back :
    (r : Reader) (p : ℕ) (xs ys : List ℕ) → Ahead r p (xs ++ ys) → Ahead r (p + length xs) ys
Ahead-back r p [] ys h = Ahead-at r p (p + 0) ys (omega arith) h
Ahead-back r p (x ∷ xs) ys (a, b, h) =
    Ahead-at r (p + 1 + length xs) _ ys (omega arith) (Ahead-back r (p + 1) xs ys h)

pub byte-Ahead :
    (r : Reader) (p x : ℕ) (xs : List ℕ) → Ahead r p (x ∷ xs) → byte r p ≡ ok (x, p + 1)
unfolding byte
byte-Ahead r p x xs h = ground arith

-- A successful read consumed some bytes `xs`, and reads the same value wherever they stand.
pub record Consumed {ℓ} {A : Type ℓ} (m : Reading A) (r : Reader) (p : ℕ) (a : A) (q : ℕ)
    : Type ℓ where
  pub taken : List ℕ
  pub ahead : Ahead r p taken
  pub moved : q ≡ p + length taken
  pub again : (s : Reader) (i : ℕ) → Ahead s i taken → m s i ≡ ok (a, i + length taken)

pub record Reads {ℓ} {A : Type ℓ} (m : Reading A) : Type ℓ where
  pub at : (r : Reader) (p : ℕ) (a : A) (q : ℕ) → p ≤ r.end → m r p ≡ ok (a, q) → Consumed m r p a q

module _ {ℓ} {A : Type ℓ} where
  pub Reads-pure : (a : A) → Reads (pure a)
  unfolding pure
  Reads-pure a = record {
    at = λ r p b q h e. record {
      taken = [];
      ahead = h;
      moved = ground arith;
      again = λ s i k. ground arith;
    };
  }

  pub Reads-throw : (x : Error) → Reads (throw {A = A} x)
  unfolding throw
  Reads-throw x = record { at = λ r p b q h e. absurd (cc) }

  pub Reads-if : (b : Bool) (m n : Reading A) → Reads m → Reads n → Reads (if b then m else n)
  Reads-if true m n km kn = km
  Reads-if false m n km kn = kn

pub Reads-throw_if : (bad : Bool) (x : Error) → Reads (throw_if bad x)
unfolding throw_if
Reads-throw_if true x = record { at = λ r p b q h e. absurd (cc) }
Reads-throw_if false x = unfold pure in Reads-pure tt

pub Reads-byte : Reads byte
unfolding byte
Reads-byte = record {
  at = λ r p b q h e. record {
    taken = b ∷ [];
    ahead = (ground arith, ground arith, ground arith);
    moved = ground arith;
    again = λ s i k. ground arith;
  };
}

-- Where a first read succeeds, the rest runs from its result.
pub bind_ok {ℓ κ} :
    {A : Type ℓ} {B : Type κ} (m : Reading A) (f : A → Reading B) (r : Reader) (p : ℕ) {a : A}
    {q : ℕ}
    → m r p ≡ ok (a, q)
    → (m >>= f) r p ≡ f a r q
unfolding ◌>>=◌
bind_ok m f r p e = rw (e, ◌>>=◌)

-- The result that stands in the middle of a successful sequence.
pub bind_inv {ℓ κ} :
    {A : Type ℓ} {B : Type κ} (m : Reading A) (f : A → Reading B) (r : Reader) (p : ℕ) {b : B}
    {q : ℕ}
    → (m >>= f) r p ≡ ok (b, q)
    → (c : A × ℕ) × (m r p ≡ ok c) × (f c.0 r c.1 ≡ ok (b, q))
unfolding ◌>>=◌
bind_inv m f r p {b} {q} h = go (m r p) refl h
  where
    go :
        (x : Result _)
        → m r p ≡ x
        → (elim x [ ok (a, q') ↦ f a r q' | err e ↦ err e | stuck ↦ stuck ]) ≡ ok (b, q)
        → (c : _ × ℕ) × (m r p ≡ ok c) × (f c.0 r c.1 ≡ ok (b, q))
    go (ok c) e h = (c, e, h)
    go (err x) e h = cc
    go stuck e h = cc

module _ {ℓ κ} {A : Type ℓ} {B : Type κ} (m : Reading A) (f : A → Reading B) where
  pub Reads-bind : Reads m → ((a : A) → Reads (f a)) → Reads (m >>= f)
  Reads-bind km kf = record { at = λ r p b q h e. step r p b q h (bind_inv m f r p e) }
    where
      step :
          (r : Reader) (p : ℕ) (b : B) (q : ℕ)
          → p ≤ r.end
          → (c : A × ℕ) × (m r p ≡ ok c) × (f c.0 r c.1 ≡ ok (b, q))
          → Consumed (m >>= f) r p b q
      step r p b q h (c, e, e') =
          let first : Consumed m r p c.0 c.1 = km.at r p c.0 c.1 h e in
          let bound = Ahead-le r p first.taken first.ahead in
          let second : Consumed (f c.0) r c.1 b q =
            (kf c.0).at r c.1 b q (omega (arith, first.moved)) e' in
          record {
            taken = first.taken ++ second.taken;
            ahead =
                Ahead-append r p first.taken second.taken first.ahead
                  (Ahead-at r c.1 _ second.taken first.moved second.ahead);
            moved =
                omega (arith, first.moved, second.moved, length-append first.taken second.taken);
            again = λ s i k.
                bind_ok m f s i (first.again s i (Ahead-front s i first.taken second.taken k))
                ∙ second.again s (i + length first.taken)
                    (Ahead-back s i first.taken second.taken k)
                ∙ ap (λ (t : ℕ). ok (b, t)) (omega (arith, length-append first.taken second.taken));
          }

pub ruleset reads_rules =
    (Reads-pure, Reads-throw, Reads-if, Reads-throw_if, Reads-byte, Reads-bind)

Reads-u32_loop : (rounds i value : ℕ) → Reads (u32_loop rounds i value)
unfolding u32_loop
Reads-u32_loop zero i value = search reads_rules
Reads-u32_loop (suc rounds) i value = search (reads_rules, Reads-u32_loop rounds)

pub Reads-u32 : Reads u32
unfolding u32
Reads-u32 = Reads-u32_loop 5 0 0

Reads-out_of_fuel {ℓ} : {A : Type ℓ} → Reads (out_of_fuel {A = A})
unfolding out_of_fuel
Reads-out_of_fuel = record { at = λ r p b q h e. absurd (cc) }

Reads-s32_loop : (rounds shift value : ℕ) → Reads (s32_loop rounds shift value)
unfolding s32_loop
Reads-s32_loop zero shift value = Reads-out_of_fuel
Reads-s32_loop (suc rounds) shift value = search (reads_rules, Reads-s32_loop rounds)

pub Reads-s32 : Reads s32
unfolding s32
Reads-s32 = Reads-s32_loop 6 0 0

pub Reads-leb : (limit : ℕ) → Reads (leb limit)
unfolding leb
Reads-leb zero = search reads_rules
Reads-leb (suc limit) =
    Reads-bind byte _ Reads-byte λ b. Reads-if _ _ _ (Reads-pure tt) (Reads-leb limit)

-- The `n` bytes at position `p`.
pub window : Reader → ℕ → ℕ → List ℕ
window r p zero = []
window r p (suc n) = get_or r.bytes p 0 ∷ window r (p + 1) n

pub length-window : (r : Reader) (p n : ℕ) → length (window r p n) ≡ n
unfolding window
length-window r p zero = refl
length-window r p (suc n) = ap suc (length-window r (p + 1) n)

pub Ahead-window : (r : Reader) (p n : ℕ) → p + n ≤ r.end → Ahead r p (window r p n)
unfolding window
Ahead-window r p zero h = omega arith
Ahead-window r p (suc n) h = (omega arith, refl, Ahead-window r (p + 1) n (omega arith))

pub Reads-skip : (count : ℕ) → Reads (skip count)
unfolding skip
Reads-skip count = record {
  at = λ r p b q h e. record {
    taken = window r p count;
    ahead = Ahead-window r p count (ground arith);
    moved = ground (arith, length-window r p count);
    again = λ s i k. ground (arith, length-window r p count, Ahead-le s i (window r p count) k);
  };
}

-- The same for the actions that read nothing.
module _ {ℓ} {B : Type ℓ} (r : Reader) (p : ℕ) {b : B} {q : ℕ} where
  pub throw_if_inv :
      (bad : Bool) (x : Error) (k : Reading B)
      → (throw_if bad x >> k) r p ≡ ok (b, q)
      → (bad ≡ false) × (k r p ≡ ok (b, q))
  unfolding ◌>>=◌
  throw_if_inv true x k e = absurd (cc)
  throw_if_inv false x k e = (refl, e)

  pub position_inv : (f : ℕ → Reading B) → (position >>= f) r p ≡ ok (b, q) → f p r p ≡ ok (b, q)
  unfolding ◌>>=◌
  position_inv f e = e

  pub end_position_inv :
      (f : ℕ → Reading B) → (end_position >>= f) r p ≡ ok (b, q) → f r.end r p ≡ ok (b, q)
  unfolding ◌>>=◌
  end_position_inv f e = e

  pub pure_inv : (a : B) → pure a r p ≡ ok (b, q) → (a ≡ b) × (p ≡ q)
  unfolding pure
  pure_inv a e = (cc, cc)

-- Another end changes nothing, as long as the bytes stand before it.
pub Ahead-end :
    (bytes : List ℕ) (e f p : ℕ) (xs : List ℕ)
    → Ahead (record { bytes = bytes; end = e }) p xs
    → p + length xs ≤ f
    → Ahead (record { bytes = bytes; end = f }) p xs
Ahead-end bytes e f p [] a h = omega arith
Ahead-end bytes e f p (x ∷ xs) (l, q, a) h =
    (omega arith, q, Ahead-end bytes e f (p + 1) xs a (omega arith))
