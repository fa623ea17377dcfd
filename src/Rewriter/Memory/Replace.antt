-- ===== src/Rewriter/Memory/Replace.antt =====
-- The copy of a module around its replaced memory section.
use capnpc_wasm.Common.{
  ℕ, ◌+◌, ◌≤◌, ◌≡◌, refl, sym, ap, ap₂, ◌∙◌, some, List, [], ◌++◌, append-nil, append_assoc, arith,
  length, length-append, take, drop, replicate, length-take, length-drop, drop-replicate,
}
use capnpc_wasm.Common.Result.{ok}
use capnpc_wasm.Rewriter.Writer.{set_at}
use capnpc_wasm.Rewriter.Writer.Content.{set_at-append}
use capnpc_wasm.Rewriter.Memory.{Memory, replace}

-- A part set behind `done`, over as many zeros as it is long, leaves the other zeros.
set_zeros :
    (done part : List ℕ) (off n m : ℕ)
    → off ≡ length done
    → n ≡ length part + m
    → set_at off part (done ++ replicate n 0) ≡ done ++ (part ++ replicate m 0)
set_zeros done part off n m eo en =
    rw (eo, en, set_at-append) (ap (λ t. done ++ (part ++ t)) (drop-replicate (length part) m 0))

three_sets :
    (a b c : List ℕ) (n : ℕ)
    → n ≡ length a + length b + length c
    → set_at (length a + length b) c (set_at (length a) b (set_at 0 a (replicate n 0)))
      ≡ a ++ (b ++ c)
three_sets a b c n e =
    ap (λ t. set_at (length a + length b) c (set_at (length a) b t))
      (set_zeros [] a 0 n (length b + length c) refl (omega arith))
    ∙ ap (λ t. set_at (length a + length b) c t)
        (set_zeros a b (length a) (length b + length c) (length c) refl refl
          ∙ sym (append_assoc a b (replicate (length c) 0)))
    ∙ set_zeros (a ++ b) c (length a + length b) (length c) 0 (sym (length-append a b))
        (omega arith)
    ∙ ap (λ t. (a ++ b) ++ t) (append-nil c)
    ∙ append_assoc a b c

-- The rewritten module is the bytes before the section, the replacement and the bytes behind it.
pub replace_lem :
    (bytes : List ℕ) (m : Memory)
    → m.start ≤ m.stop
    → m.stop ≤ length bytes
    → replace bytes (some m) ≡ ok (take m.start bytes ++ (m.replacement ++ drop m.stop bytes))
unfolding replace
replace_lem bytes m h k =
    let a = take m.start bytes in
    let e : m.start ≡ length a = omega (arith, length-take m.start bytes) in
    ap ok (
      ap₂ (λ s t. set_at (s + length m.replacement) (drop m.stop bytes) (set_at s m.replacement t))
        e refl
      ∙ three_sets a m.replacement (drop m.stop bytes) _
          (omega (arith, length-take m.start bytes, length-drop m.stop bytes)))
