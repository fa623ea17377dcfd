-- ===== src/Rewriter/Memory/Header.antt =====
-- `moduleBytes`: what it accepts.
use capnpc_wasm.Common.{
  ℕ, zero, suc, ◌+◌, ◌≡◌, refl, ap, ◌∙◌, Bool-cases, false, inl, inr, Option, none, some, List, [],
  ◌∷◌, ◌++◌, arith, length, get_elem?, drop,
}
use capnpc_wasm.Common.Result.{ok}
use capnpc_wasm.Rewriter.Memory.{
  ModuleValue, uint8array, other, header, differs, mismatch, module_bytes,
}

drop_elem :
    (bytes : List ℕ) (i v : ℕ) → get_elem? bytes i ≡ some v → drop i bytes ≡ v ∷ drop (i + 1) bytes
drop_elem [] i v e = absurd (cc)
drop_elem (b ∷ bytes) zero v e = cc
drop_elem (b ∷ bytes) (suc i) v e =
    let n : suc i + 1 ≡ suc (i + 1) = omega arith in rw n (drop_elem bytes i v e)

differs_inv : (o : Option ℕ) (v : ℕ) → differs o v ≡ false → o ≡ some v
differs_inv none v e = absurd (cc)
differs_inv (some b) v e = ground arith

mismatch_inv :
    (values bytes : List ℕ) (i : ℕ)
    → mismatch values i bytes ≡ false
    → drop i bytes ≡ values ++ drop (i + length values) bytes
unfolding mismatch
mismatch_inv [] bytes i e = ap (λ t. drop t bytes) (omega arith)
mismatch_inv (v ∷ values) bytes i e =
    let n : i + suc (length values) ≡ i + 1 + length values = omega arith in
    rw n (
      drop_elem bytes i v (differs_inv (get_elem? bytes i) v (ground arith))
      ∙ ap (λ t. v ∷ t) (mismatch_inv values bytes (i + 1) (ground arith)))

pub module_bytes-header :
    (back : List ℕ) → module_bytes (uint8array (header ++ back)) ≡ ok (header ++ back)
unfolding module_bytes
module_bytes-header back = refl

pub module_bytes_inv :
    (v : ModuleValue) (bytes : List ℕ)
    → module_bytes v ≡ ok bytes
    → (v ≡ uint8array bytes) × (bytes ≡ header ++ drop 8 bytes)
module_bytes_inv other bytes e = absurd (unfold module_bytes in cc)
module_bytes_inv (uint8array b) bytes e = elim (Bool-cases (mismatch header 0 b)) [
  | inl bad ↦ absurd (unfold module_bytes in cc (rw bad at e))
  | inr good ↦
      let same : b ≡ bytes = unfold module_bytes in ground arith in
      (ap uint8array same, rw (← same) (mismatch_inv header b 0 good))
]
