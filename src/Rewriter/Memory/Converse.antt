-- ===== src/Rewriter/Memory/Converse.antt =====
-- What `boundMemory` accepts, and what a second bound does.
use capnpc_wasm.Common.{
  ℕ, suc, ◌+◌, ◌≤◌, min, ◌≡◌, refl, sym, ap, ◌∙◌, false, Option, none, some, List, ◌++◌, arith, ltb,
  if◌then◌else◌, length, length-append, All, drop, append-nil,
}
use capnpc_wasm.Common.Result.{ok, err, type_error, bind-eq-ok}
use capnpc_wasm.Rewriter.Reader.{Reader, u32}
use capnpc_wasm.Rewriter.Reader.Locality.{Ahead, Ahead-front, Ahead-back, byte-Ahead}
use capnpc_wasm.Rewriter.Writer.{leb}
use capnpc_wasm.Rewriter.Writer.Encoding.{leb_last}
use capnpc_wasm.Rewriter.RoundTrip.{u32-leb}
use capnpc_wasm.Rewriter.Bounds.{length-leb-le}
use capnpc_wasm.Rewriter.Memory.{
  Memory, ModuleValue, uint8array, header, module_bytes, scan, replace, bound_memory,
}
use capnpc_wasm.Rewriter.Memory.Header.{module_bytes_inv}
use capnpc_wasm.Rewriter.Memory.Limits.{limits, limits_of, memory_payload}
use capnpc_wasm.Rewriter.Memory.Layout.{
  Section, frame, render, IsPlain, Module, module_of, IsModule, Ahead-drop, drop_end,
}
use capnpc_wasm.Rewriter.Memory.Scan.Found.{Found, scan-Found}
use capnpc_wasm.Rewriter.Memory.Exact.{bounded, bound_memory-module}

-- The make-up of a module that a bound accepted.
pub record Accepted (v : ModuleValue) (maximum : ℕ) (out : List ℕ) : Type 0 where
  pub made : Module
  pub is : IsModule made
  pub given : v ≡ uint8array (module_of made)
  pub fits : made.initial ≤ maximum
  pub returned : out ≡ module_of (bounded maximum made)

pub header-length : (bytes : List ℕ) → bytes ≡ header ++ drop 8 bytes → 8 ≤ length bytes
header-length bytes e = omega (arith, ap length e)

module_of-Found :
    (bytes : List ℕ) (maximum : ℕ) (m : Memory)
    → bytes ≡ header ++ drop 8 bytes
    → Found bytes maximum 8 m
    → (made : Module) × IsModule made × (bytes ≡ module_of made) × (made.initial ≤ maximum)
module_of-Found bytes maximum m e f =
    let body = render f.before ++ (frame f.section ++ render f.after) in
    let tail : drop 8 bytes ≡ body =
      Ahead-drop bytes body 8 f.ahead
      ∙ ap (λ t. body ++ t) (drop_end bytes (8 + length body) (omega (arith, f.reaches)))
      ∙ append-nil body in
    (
      record {
        before = f.before;
        memory = f.section;
        after = f.after;
        initial = f.initial;
        declared = f.declared;
      },
      record {
        before_plain = f.before_plain;
        after_plain = f.after_plain;
        framed = f.framed;
        is_memory = f.is_memory;
        declares = f.declares;
        ordered = f.ordered;
        small = f.small;
      },
      e ∙ ap (λ t. header ++ t) tail,
      f.fits,
    )

replace-some :
    (bytes out : List ℕ) (o : Option Memory)
    → replace bytes o ≡ ok out
    → (m : Memory) × (o ≡ some m)
replace-some bytes out none e = absurd (unfold replace in cc)
replace-some bytes out (some m) e = (m, refl)

shape :
    (v : ModuleValue) (maximum : ℕ) (out : List ℕ)
    → bound_memory v maximum ≡ ok out
    → (made : Module) × IsModule made × (v ≡ uint8array (module_of made)) × (made.initial ≤ maximum)
unfolding bound_memory
shape v maximum out e =
    let (bytes, e₁, k₁) = bind-eq-ok (module_bytes v) _ e in
    let (given, head) = module_bytes_inv v bytes e₁ in
    let (memory, e₂, k₂) = bind-eq-ok (scan (suc (length bytes)) bytes maximum 8 none) _ k₁ in
    let (m, found) = replace-some bytes out memory k₂ in
    let f : Found bytes maximum 8 m =
      scan-Found (suc (length bytes)) bytes maximum 8 m (header-length bytes head)
        (e₂ ∙ ap ok found) in
    let (made, is, same, fits) = module_of-Found bytes maximum m head f in
    (made, is, given ∙ ap uint8array same, fits)

bounded_result :
    (maximum : ℕ) (m : Module)
    → IsModule m
    → m.initial ≤ maximum
    → bound_memory (uint8array (module_of m)) maximum ≡ ok (module_of (bounded maximum m))
bounded_result maximum m is fits =
    let n : ltb maximum m.initial ≡ false = ground arith in bound_memory-module maximum m is ∙ rw n

-- A value that `boundMemory` accepts is a module made of the Wasm header and framed sections, one
-- of them the memory section, its limits in order and its initial size within the maximum; the
-- result is that module, bounded.
pub bound_memory_accepts :
    (v : ModuleValue) (maximum : ℕ) (out : List ℕ)
    → bound_memory v maximum ≡ ok out
    → Accepted v maximum out
bound_memory_accepts v maximum out e =
    let (made, is, given, fits) = shape v maximum out e in
    record {
      made = made;
      is = is;
      given = given;
      fits = fits;
      returned =
          ok_inj
            (sym e ∙ ap (λ t. bound_memory t maximum) given ∙ bounded_result maximum made is fits);
    }
  where
    ok_inj : {x y : List ℕ} → ok x ≡ ok y → x ≡ y
    ok_inj h = cc

length-payload :
    (initial declared : ℕ)
    → initial ≤ 65536
    → declared ≤ 65536
    → length (memory_payload initial declared) ≤ 8
length-payload initial declared h k = omega (
  arith,
  length-append (leb initial) (leb declared),
  length-leb-le 2 initial (omega arith),
  length-leb-le 2 declared (omega arith),
)

-- The payload that is written declares the limits that it was written for.
payload_declares :
    (initial declared : ℕ)
    → initial ≤ 65536
    → declared ≤ 65536
    → (r : Reader) (p : ℕ) → Ahead r p (memory_payload initial declared)
    → limits r p ≡ ok ((initial, declared), p + length (memory_payload initial declared))
payload_declares initial declared h k r p a =
    let one : u32 r p ≡ ok (1, p + 1) =
      u32-leb 1 p r (omega arith) (rw (leb_last 1 (omega arith)) (a.0, a.1, omega arith))
      ∙ rw (leb_last 1 (omega arith)) in
    let tail : Ahead r (p + 1 + 1) (leb initial ++ leb declared) = a.2.2 in
    let first = Ahead-front r (p + 1 + 1) (leb initial) (leb declared) tail in
    let second = Ahead-back r (p + 1 + 1) (leb initial) (leb declared) tail in
    limits_of r p (1, p + 1) (1, p + 1 + 1) (initial, _) (declared, _) one refl
      (byte-Ahead r (p + 1) 1 _ a.2) refl (u32-leb initial (p + 1 + 1) r (omega arith) first)
      (u32-leb declared _ r (omega arith) second)
    ∙ ap (λ t. ok ((initial, declared), t))
        (omega (arith, length-append (leb initial) (leb declared)))

-- The module with a memory section of shortest form.
abbrev pub canonical : List Section → List Section → ℕ → ℕ → Module
canonical before after initial declared =
    let payload = memory_payload initial declared in
    record {
      before = before;
      memory = record { id = 5; size = leb (length payload); payload = payload };
      after = after;
      initial = initial;
      declared = declared;
    }

pub canonical-IsModule :
    (before after : List Section) (initial declared : ℕ)
    → All IsPlain before
    → All IsPlain after
    → initial ≤ declared
    → declared ≤ 65536
    → IsModule (canonical before after initial declared)
canonical-IsModule before after initial declared pb pa h k = record {
  before_plain = pb;
  after_plain = pa;
  framed = record {
    sized = λ r p a.
        u32-leb (length (memory_payload initial declared)) p r
          (omega (arith, length-payload initial declared (omega arith) k)) a;
  };
  is_memory = refl;
  declares = payload_declares initial declared (omega arith) k;
  ordered = h;
  small = k;
}

-- A bounded module is a module again.
pub bounded-IsModule :
    (maximum : ℕ) (m : Module) → IsModule m → m.initial ≤ maximum → IsModule (bounded maximum m)
bounded-IsModule maximum m is fits =
    canonical-IsModule m.before m.after m.initial (min maximum m.declared) is.before_plain
      is.after_plain (omega (arith, is.ordered)) (omega (arith, is.small))

-- Bounding an accepted module again, by a maximum no higher than the first, gives what bounding the
-- original by that maximum gives: the same bytes or the same error. In particular a bounded module
-- is accepted again, unchanged, under its own maximum.
pub bound_memory_again :
    (v : ModuleValue) (maximum lower : ℕ) (out : List ℕ)
    → bound_memory v maximum ≡ ok out
    → lower ≤ maximum
    → bound_memory (uint8array out) lower ≡ bound_memory v lower
bound_memory_again v maximum lower out e h =
    let a : Accepted v maximum out = bound_memory_accepts v maximum out e in
    let m = a.made in
    let same : min lower (min maximum m.declared) ≡ min lower m.declared = omega arith in
    let twice : bounded lower (bounded maximum m) ≡ bounded lower m =
      ap (λ (d : ℕ). bounded_to d m) same in
    ap (λ t. bound_memory (uint8array t) lower) a.returned
    ∙ bound_memory-module lower (bounded maximum m) (bounded-IsModule maximum m a.is a.fits)
    ∙ ap
        (λ t.
          if ltb lower m.initial
          then err (type_error "initial guest memory exceeds memoryPages limit")
          else ok (module_of t))
        twice
    ∙ sym (bound_memory-module lower m a.is)
    ∙ ap (λ t. bound_memory t lower) (sym a.given)
  where
    bounded_to : ℕ → Module → Module
    bounded_to d m =
        let payload = memory_payload m.initial d in
        record m {
          memory = record { id = 5; size = leb (length payload); payload = payload };
          declared = d;
        }
