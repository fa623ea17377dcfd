-- ===== src/Rewriter/Instrument/Spans.antt =====
-- The spans of bytes that `functionBody` of sdk/typescript/rewriter.ts has read but not yet copied.
use capnpc_wasm.Common.{
  ℕ, zero, suc, ◌+◌, ◌-◌, ◌≤◌, ◌≡◌, refl, sym, ap, ◌∙◌, subst, Bool, true, false, not, Option, none,
  some, List, [], ◌∷◌, ◌++◌, append-nil, append_assoc, arith, ltb, ◌==◌, if◌then◌else◌, length,
  take, drop, slice,
}
use capnpc_wasm.Rewriter.Reader.{Reader}
use capnpc_wasm.Rewriter.Writer.{Writer, bytes}
use capnpc_wasm.Rewriter.Writer.Content.{content, IsValid, Appends, Appends-IsValid, bytes-Appends}
use capnpc_wasm.Rewriter.Checks.{charge_sequence}
use capnpc_wasm.Rewriter.Instrument.Pass.{State}
use capnpc_wasm.Rewriter.Instrument.Parts.{countdown}
use capnpc_wasm.Rewriter.Instrument.Body.{Body, find_charge, charge, with_charge}
use capnpc_wasm.Rewriter.Instrument.Reference.{Written, also}

module _ {A : Type 0} where
  take_sum : (m n : ℕ) (xs : List A) → take (m + n) xs ≡ take m xs ++ take n (drop m xs)
  take_sum zero n xs = let e : zero + n ≡ n = omega arith in ap (λ k. take k xs) e
  take_sum (suc m) n [] =
      let e : suc m + n ≡ suc (m + n) = omega arith in
      ap (λ k. take {A = A} k []) e ∙ sym (nothing n)
    where
      nothing : (n : ℕ) → take {A = A} n [] ≡ []
      nothing zero = refl
      nothing (suc n) = refl
  take_sum (suc m) n (x ∷ xs) =
      let e : suc m + n ≡ suc (m + n) = omega arith in
      ap (λ k. take k (x ∷ xs)) e ∙ ap (λ t. x ∷ t) (take_sum m n xs)

  drop_sum : (m n : ℕ) (xs : List A) → drop (m + n) xs ≡ drop n (drop m xs)
  drop_sum zero n xs = let e : zero + n ≡ n = omega arith in ap (λ k. drop k xs) e
  drop_sum (suc m) n [] =
      let e : suc m + n ≡ suc (m + n) = omega arith in
      ap (λ k. drop {A = A} k []) e ∙ sym (nothing n)
    where
      nothing : (n : ℕ) → drop {A = A} n [] ≡ []
      nothing zero = refl
      nothing (suc n) = refl
  drop_sum (suc m) n (x ∷ xs) =
      let e : suc m + n ≡ suc (m + n) = omega arith in ap (λ k. drop k (x ∷ xs)) e ∙ drop_sum m n xs

  slice_join :
      (a b c : ℕ) (xs : List A) → a ≤ b → b ≤ c → slice a b xs ++ slice b c xs ≡ slice a c xs
  slice_join a b c xs l k =
      let e : c - a ≡ (b - a) + (c - b) = omega arith in
      let f : b ≡ a + (b - a) = omega arith in
      ap (λ t. slice a b xs ++ take (c - b) t) (ap (λ n. drop n xs) f ∙ drop_sum a (b - a) xs)
      ∙ sym (ap (λ n. take n (drop a xs)) e ∙ take_sum (b - a) (c - b) (drop a xs))

  pub slice_self : (a : ℕ) (xs : List A) → slice a a xs ≡ []
  slice_self a xs = let e : a - a ≡ 0 = omega arith in ap (λ n. take n (drop a xs)) e

-- The numbers that every charge of a body is made with.
module _ (countdown_index interrupt interval scratch : ℕ) where
  abbrev pub HasNumbers : State → Type 0
  HasNumbers s =
      (countdown s ≡ countdown_index) × (s.imported_functions ≡ interrupt) × (s.interval ≡ interval)

  abbrev pub AreCharges : List (ℕ × List ℕ) → Type 0
  AreCharges charges =
      (unit : ℕ) (sequence : List ℕ)
      → find_charge unit charges ≡ some sequence
      → sequence ≡ charge_sequence countdown_index scratch interrupt interval unit

  -- What the two ways agree in, besides the bytes.
  pub record Agrees (b : Body) (w : Written) : Type 0 where
    pub valid : IsValid b.instructions
    pub guest : b.calls_guest ≡ w.guest
    pub constant : b.constant ≡ w.constant
    pub charges : AreCharges b.charges
    pub charged : not (length b.charges == 0) ≡ w.charged

  -- Nothing is put off.
  pub record IsCopied (b : Body) (w : Written) : Type 0 where
    pub agrees : Agrees b w
    pub written : content b.instructions ≡ w.out

  module _ (r : Reader) where
    -- The bytes from `b.from` up to `q` are put off.
    pub record IsPutOff (b : Body) (w : Written) (q : ℕ) : Type 0 where
      pub agrees : Agrees b w
      pub ahead : b.from ≤ q
      pub written : content b.instructions ++ slice b.from q r.bytes ≡ w.out

    pub IsPutOff-as_is :
        (b : Body) (w : Written) (p q : ℕ)
        → p ≤ q
        → IsPutOff b w p
        → IsPutOff b (also (slice p q r.bytes) w) q
    IsPutOff-as_is b w p q l h = record {
      agrees = record {
        valid = h.agrees.valid;
        guest = h.agrees.guest;
        constant = h.agrees.constant;
        charges = h.agrees.charges;
        charged = h.agrees.charged;
      };
      ahead = omega (arith, h.ahead);
      written =
          ap (λ t. content b.instructions ++ t) (sym (slice_join b.from p q r.bytes h.ahead l))
          ∙ sym (append_assoc (content b.instructions) (slice b.from p r.bytes) (slice p q r.bytes))
          ∙ ap (λ t. t ++ slice p q r.bytes) h.written;
    }

    abbrev pub copied : ℕ → Body → Body
    copied q b =
        if ltb b.from q
        then record b { instructions = bytes (slice b.from q r.bytes) b.instructions }
        else b

    pub copied-IsCopied :
        (b : Body) (w : Written) (q : ℕ) → IsPutOff b w q → IsCopied (copied q b) w
    copied-IsCopied b w q h = go (ltb b.from q) refl
      where
        span : List ℕ
        span = slice b.from q r.bytes

        go :
            (more : Bool)
            → ltb b.from q ≡ more
            → IsCopied (if more then record b { instructions = bytes span b.instructions } else b) w
        go true e =
            let a = bytes-Appends span b.instructions in
            record {
              agrees = record {
                valid = Appends-IsValid span b.instructions _ a h.agrees.valid;
                guest = h.agrees.guest;
                constant = h.agrees.constant;
                charges = h.agrees.charges;
                charged = h.agrees.charged;
              };
              written = a.written ∙ h.written;
            }
        go false e =
            let at : q ≡ b.from = ground (arith, h.ahead) in
            record {
              agrees = h.agrees;
              written =
                  sym (append-nil (content b.instructions))
                  ∙ ap (λ t. content b.instructions ++ t)
                      (sym (ap (λ n. slice b.from n r.bytes) at ∙ slice_self b.from r.bytes))
                  ∙ h.written;
            }

    -- Bytes written behind what has been copied, for an instruction that ends at `q`.
    pub IsPutOff-from :
        (b : Body) (w : Written) (xs : List ℕ) (instructions : Writer) (q : ℕ)
        → IsCopied b w
        → Appends xs b.instructions instructions
        → IsPutOff (record b { instructions = instructions; from = q }) (also xs w) q
    IsPutOff-from b w xs instructions q h a = record {
      agrees = record {
        valid = Appends-IsValid xs b.instructions instructions a h.agrees.valid;
        guest = h.agrees.guest;
        constant = h.agrees.constant;
        charges = h.agrees.charges;
        charged = h.agrees.charged;
      };
      ahead = omega arith;
      written =
          ap (λ t. content instructions ++ t) (slice_self q r.bytes)
          ∙ append-nil (content instructions)
          ∙ a.written
          ∙ ap (λ t. t ++ xs) h.written;
    }

    -- A charge for an operation at `b.from`, kept or made.
    pub IsPutOff-charge :
        (s : State) (unit : ℕ) (b : Body) (w : Written)
        → HasNumbers s
        → IsCopied b w
        → IsPutOff
            (record (charge s scratch unit b).1 {
              instructions =
                  bytes (charge s scratch unit b).0 (charge s scratch unit b).1.instructions;
            })
            (also
              (charge_sequence (countdown s) scratch s.imported_functions s.interval unit)
              (record w { charged = true }))
            b.from
    unfolding charge
    IsPutOff-charge s unit b w n h = go (find_charge unit b.charges) refl
      where
        made : List ℕ
        made = charge_sequence (countdown s) scratch s.imported_functions s.interval unit

        right : made ≡ charge_sequence countdown_index scratch interrupt interval unit
        right = cc (n.0, n.1, n.2)

        some_charge :
            (l : List (ℕ × List ℕ)) (xs : List ℕ)
            → find_charge unit l ≡ some xs
            → not (length l == 0) ≡ true
        some_charge [] xs e = cc
        some_charge (x ∷ l) xs e = ground arith

        kept :
            (unit' : ℕ) (xs : List ℕ)
            → find_charge unit' ((unit, made) ∷ b.charges) ≡ some xs
            → xs ≡ charge_sequence countdown_index scratch interrupt interval unit'
        kept unit' xs = choose (unit == unit') refl
          where
            choose :
                (same : Bool)
                → (unit == unit') ≡ same
                → (if same then some made else find_charge unit' b.charges) ≡ some xs
                → xs ≡ charge_sequence countdown_index scratch interrupt interval unit'
            choose true e f = let g : unit ≡ unit' = ground arith in cc (f, right, g)
            choose false e f = h.agrees.charges unit' xs f

        go :
            (found : Option (List ℕ))
            → find_charge unit b.charges ≡ found
            → IsPutOff
                (record (with_charge s scratch unit b found).1 {
                  instructions =
                      bytes
                        (with_charge s scratch unit b found).0
                        (with_charge s scratch unit b found).1.instructions;
                })
                (also made (record w { charged = true }))
                b.from
        go none e =
            IsPutOff-from (record b { charges = (unit, made) ∷ b.charges })
              (record w { charged = true }) made (bytes made b.instructions) b.from
              (record {
                agrees = record {
                  valid = h.agrees.valid;
                  guest = h.agrees.guest;
                  constant = h.agrees.constant;
                  charges = kept;
                  charged = ground arith;
                };
                written = h.written;
              })
              (bytes-Appends made b.instructions)
        go (some xs) e =
            let same : xs ≡ made = h.agrees.charges unit xs e ∙ sym right in
            subst
              (λ ys.
                IsPutOff (record b { instructions = bytes xs b.instructions })
                  (also ys (record w { charged = true })) b.from)
              same
              (IsPutOff-from b (record w { charged = true }) xs (bytes xs b.instructions) b.from
                (record {
                  agrees = record {
                    valid = h.agrees.valid;
                    guest = h.agrees.guest;
                    constant = h.agrees.constant;
                    charges = h.agrees.charges;
                    charged = some_charge b.charges xs e;
                  };
                  written = h.written;
                })
                (bytes-Appends xs b.instructions))
