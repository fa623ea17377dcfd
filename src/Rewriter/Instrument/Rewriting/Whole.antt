-- ===== src/Rewriter/Instrument/Rewriting/Whole.antt =====
-- `functionBody` of sdk/typescript/rewriter.ts from its locals to its end.
use capnpc_wasm.Common.{
  ℕ, suc, ◌+◌, ◌≤◌, ◌≡◌, refl, ap, ◌∙◌, subst, Bool, true, false, not, ◌&&◌, none, List, [], ◌∷◌,
  ◌++◌, arith, ltb, ◌==◌, length, slice, get_or,
}
use capnpc_wasm.Common.Result.{Result, ok, err, stuck, type_error}
use capnpc_wasm.Rewriter.Reader.{Reader}
use capnpc_wasm.Rewriter.Writer.{Writer, new, bytes, append, leb}
use capnpc_wasm.Rewriter.Writer.Content.{
  content, IsValid-new, Appends, Appends-trans, byte-Appends, bytes-Appends, append-Appends,
}
use capnpc_wasm.Rewriter.Writer.Encoding.{u32-Appends}
use capnpc_wasm.Rewriter.Instrument.Pass.{
  State, Pass, pure, throw_if, get, position, end_position, subarray, ◌>>=◌, ◌>>◌,
}
use capnpc_wasm.Rewriter.Instrument.Parts.{countdown}
use capnpc_wasm.Rewriter.Instrument.Body.{
  Body, copy_until, body_loop, head, max_locals, entry_check, function_body,
}
use capnpc_wasm.Rewriter.Instrument.Reference.{
  Written, rewrite_loop, locals, checked_entry, rewritten_body,
}
use capnpc_wasm.Rewriter.Instrument.Keeps.{Keeps-read, Keeps-position, Keeps-times}
use capnpc_wasm.Rewriter.Instrument.Reads.{IsWithin-u32}
use capnpc_wasm.Rewriter.Instrument.Indexed.Body.{group-Keeps}
use capnpc_wasm.Rewriter.Instrument.Alike.{Alike, Alike-after, Alike-bind}
use capnpc_wasm.Rewriter.Instrument.Spans.{
  HasNumbers, IsPutOff, IsCopied, copied, copied-IsCopied, slice_self,
}
use capnpc_wasm.Rewriter.Instrument.Rewriting.{AtEnd, body_loop-Alike}

head-Appends :
    (groups : ℕ) (part : List ℕ) (charged : Bool)
    → Appends (locals groups part charged) new (head groups part charged)
unfolding head
head-Appends groups part true =
    Appends-trans (leb (groups + 1)) (part ++ (leb 1 ++ (0x7f ∷ []))) _ _ _
      (u32-Appends (groups + 1) new)
      (Appends-trans part (leb 1 ++ (0x7f ∷ [])) _ _ _ (bytes-Appends part _)
        (Appends-trans (leb 1) (0x7f ∷ []) _ _ _ (u32-Appends 1 _) (byte-Appends 0x7f _)))
head-Appends groups part false =
    Appends-trans (leb groups) part _ _ _ (u32-Appends groups new) (bytes-Appends part _)

content-Appends : (xs : List ℕ) (v : Writer) → Appends xs new v → content v ≡ xs
unfolding content
content-Appends xs v a = a.written

no_bytes : (p : ℕ) (r : Reader) → content new ++ slice p p r.bytes ≡ []
unfolding content
no_bytes p r = slice_self p r.bytes

-- The two results have the same bytes.
abbrev SameBytes : Writer → List ℕ → State → ℕ → Type 0
SameBytes w xs s q = content w ≡ xs

module _ (scratch groups : ℕ) (part check : List ℕ) where
  abbrev finished : Body → Pass Writer
  finished b = do
    let charged = not (length b.charges == 0)
    throw_if (charged && ltb max_locals (scratch + 1))
        (type_error "unsupported Wasm function: no local is left for bulk operation sizes")
    w ← entry_check check b.calls_guest (head groups part charged)
    pure (append b.instructions w)

  abbrev finished_bytes : Bool → Bool → List ℕ → Pass (List ℕ)
  finished_bytes guest charged out = do
    throw_if (charged && ltb max_locals (scratch + 1))
        (type_error "unsupported Wasm function: no local is left for bulk operation sizes")
    xs ← checked_entry check guest (locals groups part charged)
    pure (xs ++ out)

  finished-Alike :
      (countdown_index interrupt interval : ℕ) (b : Body) (w : Written) (r : Reader) (s : State)
      (p : ℕ)
      → p ≤ r.end
      → IsCopied countdown_index interrupt interval scratch b w
      → Alike SameBytes r.end p (finished b r s p) (finished_bytes w.guest w.charged w.out r s p)
  unfolding ◌>>=◌ throw_if
  finished-Alike countdown_index interrupt interval b w r s p k h =
      subst
        (λ guest.
          Alike SameBytes r.end p (finished b r s p) (finished_bytes guest w.charged w.out r s p))
        h.agrees.guest
        (subst
          (λ charged.
            Alike SameBytes r.end p (finished b r s p)
              (finished_bytes b.calls_guest charged w.out r s p))
          h.agrees.charged
          (checked (charged && ltb max_locals (scratch + 1)) b.calls_guest
            (locals groups part charged) (head groups part charged) w.out
            (head-Appends groups part charged) h.written))
    where
      charged : Bool
      charged = not (length b.charges == 0)

      joined :
          (xs : List ℕ) (v : Writer)
          → Appends xs new v
          → (out : List ℕ) → content b.instructions ≡ out
          → content (append b.instructions v) ≡ xs ++ out
      joined xs v a out e =
          (append-Appends b.instructions v h.agrees.valid).written
          ∙ ap (λ t. t ++ content b.instructions) (content-Appends xs v a)
          ∙ ap (λ t. xs ++ t) e

      entered :
          (guest : Bool) (xs : List ℕ) (v : Writer) (out : List ℕ)
          → Appends xs new v
          → content b.instructions ≡ out
          → Alike SameBytes r.end p
              ((entry_check check guest v >>= λ w. pure (append b.instructions w)) r s p)
              ((checked_entry check guest xs >>= λ ys. pure (ys ++ out)) r s p)
      entered false xs v out a e = (refl, refl, omega arith, k, joined xs v a out e)
      entered true xs v out a e = (
        refl,
        refl,
        omega arith,
        k,
        joined (xs ++ check) (bytes check v)
            (Appends-trans xs check _ _ _ a (bytes-Appends check v)) out e,
      )

      checked :
          (bad guest : Bool) (xs : List ℕ) (v : Writer) (out : List ℕ)
          → Appends xs new v
          → content b.instructions ≡ out
          → Alike SameBytes r.end p
              ((do
                throw_if bad (
                    type_error
                      "unsupported Wasm function: no local is left for bulk operation sizes")
                w ← entry_check check guest v
                pure (append b.instructions w))
                r s p)
              ((do
                throw_if bad (
                    type_error
                      "unsupported Wasm function: no local is left for bulk operation sizes")
                ys ← checked_entry check guest xs
                pure (ys ++ out))
                r s p)
      checked true guest xs v out a e = refl
      checked false guest xs v out a e = entered guest xs v out a e

abbrev pub contents : Result (Writer × State × ℕ) → Result (List ℕ × State × ℕ)
contents (ok (w, s, q)) = ok (content w, s, q)
contents (err e) = err e
contents stuck = stuck

body-Alike :
    (countdown_index interrupt interval type_ : ℕ) (check : List ℕ) (r : Reader) (s : State) (p : ℕ)
    → p ≤ r.end
    → HasNumbers countdown_index interrupt interval 0 s
    → Alike SameBytes r.end p (function_body type_ check r s p) (rewritten_body type_ check r s p)
unfolding function_body rewritten_body
body-Alike countdown_index interrupt interval type_ check r s p k g =
    let P : State → Type 0 = HasNumbers countdown_index interrupt interval 0 in
    Alike-after P SameBytes _ _ _ r s p (Keeps-read _ IsWithin-u32) k g λ groups t q i j n.
      Alike-after P SameBytes _ _ _ r t q Keeps-position j n λ groups_start t q i j n.
        Alike-after P SameBytes _ _ _ r t q (Keeps-times groups _ group-Keeps 0) j n
          λ declared t q i j n. after_locals groups groups_start declared t q j n
  where
    after_locals :
        (groups groups_start declared : ℕ) (s : State) (p : ℕ)
        → p ≤ r.end
        → HasNumbers countdown_index interrupt interval 0 s
        → Alike SameBytes r.end p
            ((do
              groups_end ← position
              part ← subarray groups_start groups_end
              s ← get
              let scratch = get_or s.param_counts type_ 0 + declared
              end ← end_position
              b ← body_loop (suc end) check scratch (record {
                instructions = new;
                from = groups_end;
                calls_guest = false;
                constant = none;
                charges = [];
              })
              b' ← copy_until end b
              finished scratch groups part check b')
              r s p)
            ((do
              groups_end ← position
              part ← subarray groups_start groups_end
              s ← get
              let scratch = get_or s.param_counts type_ 0 + declared
              end ← end_position
              w ←
                  rewrite_loop
                    (suc end)
                    check
                    scratch
                    (record { out = []; guest = false; constant = none; charged = false })
              finished_bytes scratch groups part check w.guest w.charged w.out)
              r s p)
    after_locals groups groups_start declared s p k g =
        let scratch = get_or s.param_counts type_ 0 + declared in
        let part = slice groups_start p r.bytes in
        let b₀ : Body = record {
          instructions = new;
          from = p;
          calls_guest = false;
          constant = none;
          charges = [];
        } in
        let w₀ : Written = record { out = []; guest = false; constant = none; charged = false } in
        unfold ◌>>=◌ in
        Alike-bind (AtEnd countdown_index interrupt interval scratch r) SameBytes
          (body_loop (suc r.end) check scratch b₀) (rewrite_loop (suc r.end) check scratch w₀)
          (λ b. copy_until r.end b >>= finished scratch groups part check)
          (λ w. finished_bytes scratch groups part check w.guest w.charged w.out) r s p
          (body_loop-Alike countdown_index interrupt interval scratch r (suc r.end) check b₀ w₀ s p
            k g (started scratch p))
          λ b w t q i j m.
            unfold copy_until in
            finished-Alike scratch groups part check countdown_index interrupt interval
              (copied countdown_index interrupt interval scratch r r.end b) w r t q j
              (copied-IsCopied countdown_index interrupt interval scratch r b w r.end m.1)
      where
        started :
            (scratch p : ℕ)
            → IsPutOff countdown_index interrupt interval scratch r
                (record {
                  instructions = new;
                  from = p;
                  calls_guest = false;
                  constant = none;
                  charges = [];
                })
                (record { out = []; guest = false; constant = none; charged = false })
                p
        started scratch p = record {
          agrees = record {
            valid = IsValid-new;
            guest = refl;
            constant = refl;
            charges = λ unit sequence e. absurd (cc e);
            charged = refl;
          };
          ahead = omega arith;
          written = no_bytes p r;
        }

-- Writing the spans late and keeping the charges makes no difference: on every body, from every state
-- of the shared variables, `functionBody` leaves the same variables and position, throws the same
-- error, and collects the same bytes as rewriting one instruction at a time. There each loop is
-- followed by a check, each direct call of an import by a check or, for the exit function, a trap,
-- each other function index is renumbered, each charged bulk operation stands behind its charge, and
-- every other instruction is as it was.
pub function_body-rewritten_body :
    (type_ : ℕ) (check : List ℕ) (r : Reader) (s : State) (p : ℕ)
    → p ≤ r.end
    → contents (function_body type_ check r s p) ≡ rewritten_body type_ check r s p
function_body-rewritten_body type_ check r s p k = equal _ _ (
    body-Alike (countdown s) s.imported_functions s.interval type_ check r s p k (refl, refl, refl))
  where
    equal :
        (x : Result (Writer × State × ℕ)) (y : Result (List ℕ × State × ℕ))
        → Alike SameBytes r.end p x y
        → contents x ≡ y
    equal (ok (w, t, q)) (ok (xs, u, i)) (e, f, g, h, j) = cc
    equal (err e) (err e') h = ap err h
    equal stuck stuck h = refl
    equal (err e) stuck h = elim h [ ]
    equal (err e) (ok _) h = elim h [ ]
    equal stuck (err e') h = elim h [ ]
    equal stuck (ok _) h = elim h [ ]
    equal (ok (w, t, q)) (err e') h = elim h [ ]
    equal (ok (w, t, q)) stuck h = elim h [ ]
