-- ===== src/Rewriter/Memory/Termination.antt =====
-- `boundMemory` ends on every input: the rounds given to its loop suffice.
use capnpc_wasm.Common.{
  ℕ, zero, suc, ◌+◌, ◌≤◌, ◌<◌, ◌≡◌, ◌≢◌, refl, Bool-cases, inl, inr, Option, none, some, List,
  arith, ltb, ◌==◌, if◌then◌else◌, length,
}
use capnpc_wasm.Common.Result
use capnpc_wasm.Common.Result.{Error, Result, ok, err, stuck}
use capnpc_wasm.Rewriter.Reader.Locality.{Ahead-le}
use capnpc_wasm.Rewriter.Reader.Total.{Total, total_rules, Total-byte, Total-u32}
use capnpc_wasm.Rewriter.Memory.{
  Memory, ModuleValue, uint8array, other, module_bytes, bounded_memory, memory_section,
  scan_section, scan, replace, bound_memory,
}
use capnpc_wasm.Rewriter.Memory.Layout.{frame, whole}
use capnpc_wasm.Rewriter.Memory.Header.{module_bytes_inv}
use capnpc_wasm.Rewriter.Memory.Converse.{header-length}
use capnpc_wasm.Rewriter.Memory.Scan.{scan_round, scan_end}
use capnpc_wasm.Rewriter.Memory.Scan.Inverse.{Scanned, scan_section_inv}

Total-bounded_memory : (maximum : ℕ) → Total (bounded_memory maximum)
unfolding bounded_memory
Total-bounded_memory maximum = search (total_rules, Total-u32) depth 30

-- A sequence does not get stuck where neither part does.
pub bind-ne-stuck {ℓ κ} :
    {A : Type ℓ} {B : Type κ} (m : Result A) (f : A → Result B)
    → m ≢ stuck
    → ((a : A) → m ≡ ok a → f a ≢ stuck)
    → ◌≢◌ {A = Result B} (Result.◌>>=◌ m f) stuck
bind-ne-stuck (ok a) f h k = k a refl
bind-ne-stuck (err e) f h k = λ x. cc
bind-ne-stuck stuck f h k = absurd (h refl)

memory_section-ne-stuck :
    (bytes : List ℕ) (maximum start at end : ℕ) (memory : Option Memory)
    → memory_section bytes maximum start at end memory ≢ stuck
unfolding memory_section
memory_section-ne-stuck bytes maximum start at end (some m) = λ e. cc
memory_section-ne-stuck bytes maximum start at end none =
    bind-ne-stuck _ _ ((Total-bounded_memory maximum).ends _ at) (λ x _ e. cc)

scan_section-ne-stuck :
    (bytes : List ℕ) (maximum p : ℕ) (memory : Option Memory)
    → scan_section bytes maximum p memory ≢ stuck
unfolding scan_section
scan_section-ne-stuck bytes maximum p memory =
    bind-ne-stuck _ _ (Total-byte.ends (whole bytes) p) λ hd _.
      bind-ne-stuck _ _ (Total-u32.ends (whole bytes) hd.1)
        λ size _. tests hd.0 size.1 (size.1 + size.0)
  where
    tests :
        (id at end : ℕ)
        → ◌≢◌ {A = Result (ℕ × Option Memory)}
            (if ltb (length bytes) end
              then err (Result.type_error "truncated Wasm section")
              else Result.◌>>=◌
                  (if id == 5 then memory_section bytes maximum p at end memory else ok memory)
                  (λ m. ok (end, m)))
            stuck
    tests id at end e = ground (arith, memory_section-ne-stuck bytes maximum p at end memory)

scan-ne-stuck :
    (n : ℕ) (bytes : List ℕ) (maximum p : ℕ) (memory : Option Memory)
    → p ≤ length bytes
    → length bytes < n + p
    → scan n bytes maximum p memory ≢ stuck
scan-ne-stuck zero bytes maximum p memory l h = absurd (omega arith)
scan-ne-stuck (suc n) bytes maximum p memory l h = elim (Bool-cases (ltb p (length bytes))) [
  | inr past ↦ λ e. cc (e, scan_end n bytes maximum p memory (ground arith))
  | inl more ↦ rw (scan_round n bytes maximum p memory (ground arith)) (
      bind-ne-stuck _ _ (scan_section-ne-stuck bytes maximum p memory) λ x e.
        let s : Scanned bytes maximum p memory x.0 x.1 =
          scan_section_inv bytes maximum p x.0 memory x.1 e in
        let inside = Ahead-le (whole bytes) p (frame s.section) s.ahead in
        scan-ne-stuck n bytes maximum x.0 x.1 (omega (arith, s.moved, inside))
          (omega (arith, s.moved)))
]

pub module_bytes-ne-stuck : (v : ModuleValue) → module_bytes v ≢ stuck
unfolding module_bytes
module_bytes-ne-stuck other e = cc
module_bytes-ne-stuck (uint8array b) e = ground arith

-- `boundMemory` always returns bytes or throws, whatever its argument: its loop ends.
pub bound_memory-ne-stuck : (v : ModuleValue) (maximum : ℕ) → bound_memory v maximum ≢ stuck
unfolding bound_memory
bound_memory-ne-stuck v maximum = bind-ne-stuck _ _ (module_bytes-ne-stuck v) λ bytes e.
    bind-ne-stuck _ _
      (scan-ne-stuck (suc (length bytes)) bytes maximum 8 none
        (header-length bytes (module_bytes_inv v bytes e).1) (omega arith))
      λ memory _. replaced bytes memory
  where
    replaced : (bytes : List ℕ) (memory : Option Memory) → replace bytes memory ≢ stuck
    replaced bytes none e = unfold replace in cc
    replaced bytes (some m) e = unfold replace in cc
