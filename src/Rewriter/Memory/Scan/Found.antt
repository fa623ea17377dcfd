-- ===== src/Rewriter/Memory/Scan/Found.antt =====
-- What the whole loop of `boundMemory` finds in a module that it accepts.
use capnpc_wasm.Common.{
  ℕ, zero, suc, ◌+◌, ◌≤◌, min, ◌≡◌, refl, sym, ap, ap₂, ◌∙◌, subst, Bool-cases, ◌⊎◌, inl, inr,
  Option, none, some, List, [], ◌∷◌, ◌++◌, arith, ltb, length, length-append, All, append_assoc,
}
use capnpc_wasm.Common.Result.{ok, bind-eq-ok}
use capnpc_wasm.Rewriter.Reader.{Reader}
use capnpc_wasm.Rewriter.Reader.Locality.{Ahead, Ahead-append, Ahead-back, Ahead-le, Consumed}
use capnpc_wasm.Rewriter.Writer.{leb}
use capnpc_wasm.Rewriter.Memory.{Memory, bounded_memory, memory_section, scan_section, scan}
use capnpc_wasm.Rewriter.Memory.Limits.{limits, memory_payload, bounded_memory_inv, Reads-limits}
use capnpc_wasm.Rewriter.Memory.Layout.{Section, frame, render, IsFramed, IsPlain, whole}
use capnpc_wasm.Rewriter.Memory.Scan.{scan_round, scan_end}
use capnpc_wasm.Rewriter.Memory.Scan.Inverse.{Scanned, scan_section_inv}

-- Two runs of bytes of one length at one place are the same.
Ahead-eq :
    (bytes xs ys : List ℕ) (p e f : ℕ)
    → Ahead (record { bytes = bytes; end = e }) p xs
    → Ahead (record { bytes = bytes; end = f }) p ys
    → length xs ≡ length ys
    → xs ≡ ys
Ahead-eq bytes [] [] p e f a b h = refl
Ahead-eq bytes [] (y ∷ ys) p e f a b h = absurd (omega arith)
Ahead-eq bytes (x ∷ xs) [] p e f a b h = absurd (omega arith)
Ahead-eq bytes (x ∷ xs) (y ∷ ys) p e f (_, ex, a) (_, ey, b) h =
    ap₂ (λ t ts. t ∷ ts) (sym ex ∙ ey) (Ahead-eq bytes xs ys (p + 1) e f a b (omega arith))

abbrev pub replacement_of : ℕ → ℕ → List ℕ
replacement_of initial declared =
    5 ∷ (leb (length (memory_payload initial declared)) ++ memory_payload initial declared)

memory_section_inv :
    (bytes : List ℕ) (maximum start at end : ℕ) (memory memory' : Option Memory)
    → memory_section bytes maximum start at end memory ≡ ok memory'
    → (memory ≡ none)
      × (x : List ℕ × ℕ) × (bounded_memory maximum (record { bytes = bytes; end = end }) at ≡ ok x)
      × (memory'
          ≡ some
              (record { start = start; stop = end; replacement = 5 ∷ (leb (length x.0) ++ x.0) }))
unfolding memory_section
memory_section_inv bytes maximum start at end (some m) memory' e = absurd (cc)
memory_section_inv bytes maximum start at end none memory' e =
    let (x, e₁, k) =
      bind-eq-ok (bounded_memory maximum (record { bytes = bytes; end = end }) at) _ e in
    (refl, x, e₁, sym (ok_inj k))
  where
    ok_inj : {x y : Option Memory} → ok x ≡ ok y → x ≡ y
    ok_inj h = cc

-- The sections from `p` to the end of the module.
pub record Rest (bytes : List ℕ) (p : ℕ) (ss : List Section) : Type 0 where
  pub plain : All IsPlain ss
  pub ahead : Ahead (whole bytes) p (render ss)
  pub reaches : p + length (render ss) ≡ length bytes

Rest-cons :
    (bytes : List ℕ) (p q : ℕ) (s : Section) (ss : List Section)
    → IsPlain s
    → Ahead (whole bytes) p (frame s)
    → q ≡ p + length (frame s)
    → Rest bytes q ss
    → Rest bytes p (s ∷ ss)
Rest-cons bytes p q s ss plain a e rest = record {
  plain = (plain, rest.plain);
  ahead =
      Ahead-append (whole bytes) p (frame s) (render ss) a
        (subst (λ t. Ahead (whole bytes) t (render ss)) e rest.ahead);
  reaches = omega (arith, rest.reaches, length-append (frame s) (render ss));
}

Rest-nil : (bytes : List ℕ) (p : ℕ) → p ≡ length bytes → Rest bytes p []
Rest-nil bytes p e = record { plain = tt; ahead = omega arith; reaches = omega arith }

-- A round of a scan that succeeds: the module ends, or a section is passed over.
record Onward (n : ℕ) (bytes : List ℕ) (maximum p : ℕ) (memory memory' : Option Memory)
    : Type 0 where
  to : ℕ
  next : Option Memory
  scanned : Scanned bytes maximum p memory to next
  inside : to ≤ length bytes
  goes_on : scan n bytes maximum to next ≡ ok memory'

scan_inv :
    (n : ℕ) (bytes : List ℕ) (maximum p : ℕ) (memory memory' : Option Memory)
    → p ≤ length bytes
    → scan (suc n) bytes maximum p memory ≡ ok memory'
    → ((p ≡ length bytes) × (memory' ≡ memory)) ⊎ Onward n bytes maximum p memory memory'
scan_inv n bytes maximum p memory memory' h e = elim (Bool-cases (ltb p (length bytes))) [
  | inr past ↦ inl (ground arith, cc (e, scan_end n bytes maximum p memory (ground arith)))
  | inl more ↦
      let e' = sym (scan_round n bytes maximum p memory (ground arith)) ∙ e in
      let (x, e₁, k) = bind-eq-ok (scan_section bytes maximum p memory) _ e' in
      let s : Scanned bytes maximum p memory x.0 x.1 =
        scan_section_inv bytes maximum p x.0 memory x.1 e₁ in
      inr (record {
        to = x.0;
        next = x.1;
        scanned = s;
        inside = omega (arith, s.moved, Ahead-le (whole bytes) p (frame s.section) s.ahead);
        goes_on = k;
      })
]

-- Behind the memory section a scan that succeeds meets plain sections alone.
scan_after :
    (n : ℕ) (bytes : List ℕ) (maximum p : ℕ) (m : Memory) (memory' : Option Memory)
    → p ≤ length bytes
    → scan n bytes maximum p (some m) ≡ ok memory'
    → (ss : List Section) × Rest bytes p ss × (memory' ≡ some m)
scan_after zero bytes maximum p m memory' h e = absurd (unfold scan in cc)
scan_after (suc n) bytes maximum p m memory' h e =
    elim (scan_inv n bytes maximum p (some m) memory' h e) [
      | inl (stop, same) ↦ ([], Rest-nil bytes p stop, same)
      | inr o ↦ elim o.scanned.next [
        | inr (is, found) ↦
            absurd (cc (memory_section_inv bytes maximum p _ _ (some m) o.next found).0)
        | inl (other, kept) ↦
            let k = subst (λ t. scan n bytes maximum o.to t ≡ ok memory') kept o.goes_on in
            let (ss, rest, same) = scan_after n bytes maximum o.to m memory' o.inside k in
            (
              o.scanned.section ∷ ss,
              Rest-cons bytes p o.to o.scanned.section ss
                  (record { framed = o.scanned.framed; no_memory = other }) o.scanned.ahead
                  o.scanned.moved rest,
              same,
            )
      ]
    ]

-- What a scan that succeeds has found from `p` on.
pub record Found (bytes : List ℕ) (maximum p : ℕ) (m : Memory) : Type 0 where
  pub before : List Section
  pub section : Section
  pub after : List Section
  pub initial : ℕ
  pub declared : ℕ
  pub before_plain : All IsPlain before
  pub after_plain : All IsPlain after
  pub framed : IsFramed section
  pub is_memory : section.id ≡ 5
  pub declares :
      (r : Reader) (i : ℕ)
      → Ahead r i section.payload
      → limits r i ≡ ok ((initial, declared), i + length section.payload)
  pub ordered : initial ≤ declared
  pub small : declared ≤ 65536
  pub fits : initial ≤ maximum
  pub ahead : Ahead (whole bytes) p (render before ++ (frame section ++ render after))
  pub reaches : p + length (render before ++ (frame section ++ render after)) ≡ length bytes
  pub start : m.start ≡ p + length (render before)
  pub stop : m.stop ≡ m.start + length (frame section)
  pub replaced : m.replacement ≡ replacement_of initial (min maximum declared)

Found-later :
    (bytes : List ℕ) (maximum p q : ℕ) (m : Memory) (s : Section)
    → IsPlain s
    → Ahead (whole bytes) p (frame s)
    → q ≡ p + length (frame s)
    → Found bytes maximum q m
    → Found bytes maximum p m
Found-later bytes maximum p q m s plain a e f =
    let tail = render f.before ++ (frame f.section ++ render f.after) in
    let bracket : frame s ++ tail
        ≡ (frame s ++ render f.before) ++ (frame f.section ++ render f.after) =
      sym (append_assoc (frame s) (render f.before) (frame f.section ++ render f.after)) in
    record {
      before = s ∷ f.before;
      section = f.section;
      after = f.after;
      initial = f.initial;
      declared = f.declared;
      before_plain = (plain, f.before_plain);
      after_plain = f.after_plain;
      framed = f.framed;
      is_memory = f.is_memory;
      declares = f.declares;
      ordered = f.ordered;
      small = f.small;
      fits = f.fits;
      ahead =
          subst (λ t. Ahead (whole bytes) p t) bracket
            (Ahead-append (whole bytes) p (frame s) tail a
              (subst (λ t. Ahead (whole bytes) t tail) e f.ahead));
      reaches = omega (arith, f.reaches, length-append (frame s) tail, ap length bracket);
      start = omega (arith, f.start, length-append (frame s) (render f.before));
      stop = f.stop;
      replaced = f.replaced;
    }

-- The payload declares what `boundedMemory` read of it, wherever it stands.
module _ (bytes : List ℕ) (s : Section) (p initial declared : ℕ)
    (ahead : Ahead (whole bytes) p (frame s))
    (reads : limits (record { bytes = bytes; end = p + length (frame s) }) (p + 1 + length s.size)
      ≡ ok ((initial, declared), p + length (frame s))) where
  payload_declares :
      (r : Reader) (i : ℕ)
      → Ahead r i s.payload
      → limits r i ≡ ok ((initial, declared), i + length s.payload)
  payload_declares r i a =
      let at = p + 1 + length s.size in
      let end = p + length (frame s) in
      let long : end ≡ at + length s.payload = omega (arith, length-append s.size s.payload) in
      let section : Reader = record { bytes = bytes; end = end } in
      let c : Consumed limits section at (initial, declared) end =
        Reads-limits.at section at (initial, declared) end (omega (arith, long)) reads in
      let here : Ahead (whole bytes) at s.payload =
        Ahead-back (whole bytes) (p + 1) s.size s.payload ahead.2 in
      let same : c.taken ≡ s.payload =
        Ahead-eq bytes c.taken s.payload at end (length bytes) c.ahead here
          (omega (arith, c.moved, long)) in
      subst (λ t. Ahead r i t → limits r i ≡ ok ((initial, declared), i + length t)) same
        (c.again r i) a

Found-here :
    (bytes : List ℕ) (maximum p q : ℕ) (m : Memory) (s : Section) (after : List Section)
    → IsFramed s
    → s.id ≡ 5
    → Ahead (whole bytes) p (frame s)
    → q ≡ p + length (frame s)
    → memory_section bytes maximum p (p + 1 + length s.size) (p + length (frame s)) none
      ≡ ok (some m)
    → Rest bytes q after
    → Found bytes maximum p m
Found-here bytes maximum p q m s after framed is a e found rest =
    let (_, x, run, built) = memory_section_inv bytes maximum p _ _ none (some m) found in
    let (initial, declared, reads, ordered, small, fits, out) =
      bounded_memory_inv maximum _ (p + 1 + length s.size) x.0 x.1 run in
    let built' : m ≡ record {
      start = p;
      stop = p + length (frame s);
      replacement = 5 ∷ (leb (length x.0) ++ x.0);
    } =
      cc built in
    record {
      before = [];
      section = s;
      after = after;
      initial = initial;
      declared = declared;
      before_plain = tt;
      after_plain = rest.plain;
      framed = framed;
      is_memory = is;
      declares = payload_declares bytes s p initial declared a reads;
      ordered = ordered;
      small = small;
      fits = fits;
      ahead =
          Ahead-append (whole bytes) p (frame s) (render after) a
            (subst (λ t. Ahead (whole bytes) t (render after)) e rest.ahead);
      reaches = omega (arith, rest.reaches, length-append (frame s) (render after));
      start = ap (λ (t : Memory). t.start) built' ∙ omega arith;
      stop = rw (ap (λ (t : Memory). t.stop) built', ap (λ (t : Memory). t.start) built');
      replaced =
          ap (λ (t : Memory). t.replacement) built' ∙ ap (λ t. 5 ∷ (leb (length t) ++ t)) out;
    }

-- A scan that finds the memory section shows the make-up of the rest of the module.
pub scan-Found :
    (n : ℕ) (bytes : List ℕ) (maximum p : ℕ) (m : Memory)
    → p ≤ length bytes
    → scan n bytes maximum p none ≡ ok (some m)
    → Found bytes maximum p m
scan-Found zero bytes maximum p m h e = absurd (unfold scan in cc)
scan-Found (suc n) bytes maximum p m h e = elim (scan_inv n bytes maximum p none (some m) h e) [
  | inl (stop, same) ↦ absurd (cc)
  | inr o ↦ elim o.scanned.next [
    | inl (other, kept) ↦
        Found-later bytes maximum p o.to m o.scanned.section
          (record { framed = o.scanned.framed; no_memory = other }) o.scanned.ahead o.scanned.moved
          (scan-Found n bytes maximum o.to m o.inside
            (subst (λ t. scan n bytes maximum o.to t ≡ ok (some m)) kept o.goes_on))
    | inr (is, found) ↦
        let (_, x, run, built) = memory_section_inv bytes maximum p _ _ none o.next found in
        let (ss, rest, same) =
          scan_after n bytes maximum o.to _ (some m) o.inside
            (subst (λ t. scan n bytes maximum o.to t ≡ ok (some m)) built o.goes_on) in
        Found-here bytes maximum p o.to m o.scanned.section ss o.scanned.framed is o.scanned.ahead
          o.scanned.moved (found ∙ ap ok (built ∙ sym same)) rest
  ]
]
