-- ===== src/Rewriter/Memory/Scan.antt =====
-- The loop of `boundMemory` over the sections of a module.
pub mod Inverse
pub mod Found
use capnpc_wasm.Common.{
  ℕ, zero, suc, ◌+◌, ◌-◌, ◌≤◌, ◌<◌, min, ◌≡◌, ◌≢◌, refl, sym, ap, ◌∙◌, subst, Bool, Bool-cases,
  true, false, ◌⊎◌, inl, inr, Option, none, some, List, [], ◌∷◌, ◌++◌, arith, ltb, ◌==◌, ==_iff,
  if◌then◌else◌, length, length-append, All, get_or, append_assoc,
}
use capnpc_wasm.Common.Result
use capnpc_wasm.Common.Result.{Error, Result, ok, err, stuck, type_error}
use capnpc_wasm.Rewriter.Reader.{Reader, byte, u32}
use capnpc_wasm.Rewriter.Reader.Locality.{
  Ahead, byte-Ahead, Ahead-append, Ahead-front, Ahead-back, Ahead-le, Ahead-window, length-window,
  window, Consumed, Reads-u32,
}
use capnpc_wasm.Rewriter.Writer.{leb}
use capnpc_wasm.Rewriter.Memory.{Memory, bounded_memory, memory_section, scan_section, scan}
use capnpc_wasm.Rewriter.Memory.Limits.{
  limits, memory_payload, bounded_memory_ok, bounded_memory_inv, Reads-limits,
}
use capnpc_wasm.Rewriter.Memory.Layout.{Section, frame, render, IsFramed, IsPlain, whole}

-- The id and the size at the head of a framed section are read as they stand, and the section ends
-- inside the module.
module _ (bytes : List ℕ) (s : Section) (p : ℕ) (framed : IsFramed s)
    (ahead : Ahead (whole bytes) p (frame s)) where
  head_byte : byte (whole bytes) p ≡ ok (s.id, p + 1)
  head_byte = byte-Ahead (whole bytes) p s.id (s.size ++ s.payload) ahead

  head_size : u32 (whole bytes) (p + 1) ≡ ok (length s.payload, p + 1 + length s.size)
  head_size =
      framed.sized (whole bytes) (p + 1)
        (Ahead-front (whole bytes) (p + 1) s.size s.payload ahead.2)

  section_end : p + 1 + length s.size + length s.payload ≡ p + length (frame s)
  section_end = omega (arith, length-append s.size s.payload)

  pub section_inside : p + length (frame s) ≤ length bytes
  section_inside = Ahead-le (whole bytes) p (frame s) ahead

  scan_other :
      (maximum : ℕ) (memory : Option Memory)
      → s.id ≢ 5
      → scan_section bytes maximum p memory ≡ ok (p + length (frame s), memory)
  unfolding scan_section
  scan_other maximum memory other =
      let n : (s.id == 5) ≡ false = ground arith in
      let inside : ltb (length bytes) (p + 1 + length s.size + length s.payload) ≡ false =
        ground (arith, section_end, section_inside) in
      rw head_byte (rw head_size (rw inside (rw n (ap (λ t. ok (t, memory)) section_end))))

  pub scan_memory :
      (maximum : ℕ) (memory : Option Memory)
      → s.id ≡ 5
      → scan_section bytes maximum p memory
        ≡ Result.◌>>=◌
            (memory_section bytes maximum p (p + 1 + length s.size) (p + length (frame s)) memory)
            (λ memory'. ok (p + length (frame s), memory'))
  unfolding scan_section
  scan_memory maximum memory same =
      let n : (s.id == 5) ≡ true = ground arith in
      let inside : ltb (length bytes) (p + 1 + length s.size + length s.payload) ≡ false =
        ground (arith, section_end, section_inside) in
      rw head_byte (rw head_size (rw inside (rw n (rw section_end))))

pub scan_round :
    (n : ℕ) (bytes : List ℕ) (maximum p : ℕ) (memory : Option Memory)
    → p < length bytes
    → scan (suc n) bytes maximum p memory
      ≡ Result.◌>>=◌
          (scan_section bytes maximum p memory)
          (λ next. scan n bytes maximum next.0 next.1)
unfolding scan
scan_round n bytes maximum p memory h =
    let e : ltb p (length bytes) ≡ true = ground arith in rw (e, scan)

pub scan_end :
    (n : ℕ) (bytes : List ℕ) (maximum p : ℕ) (memory : Option Memory)
    → length bytes ≤ p
    → scan (suc n) bytes maximum p memory ≡ ok memory
unfolding scan
scan_end n bytes maximum p memory h =
    let e : ltb p (length bytes) ≡ false = ground arith in rw (e, scan)

-- The loop passes over sections that are no memory section.
pub scan_plain :
    (ss : List Section) (n : ℕ) (bytes : List ℕ) (maximum p : ℕ) (memory : Option Memory)
    → All IsPlain ss
    → Ahead (whole bytes) p (render ss)
    → scan (length ss + n) bytes maximum p memory
      ≡ scan n bytes maximum (p + length (render ss)) memory
scan_plain [] n bytes maximum p memory plain a =
    ap (λ k. scan k bytes maximum p memory) (omega arith)
    ∙ ap (λ k. scan n bytes maximum k memory) (omega arith)
scan_plain (s ∷ ss) n bytes maximum p memory (plain, rest) a =
    let front : Ahead (whole bytes) p (frame s) =
      Ahead-front (whole bytes) p (frame s) (render ss) a in
    let back : Ahead (whole bytes) (p + length (frame s)) (render ss) =
      Ahead-back (whole bytes) p (frame s) (render ss) a in
    ap (λ k. scan k bytes maximum p memory) (omega arith)
    ∙ scan_round (length ss + n) bytes maximum p memory a.0
    ∙ ap (λ t. Result.◌>>=◌ t (λ next. scan (length ss + n) bytes maximum next.0 next.1))
        (scan_other bytes s p plain.framed front maximum memory plain.no_memory)
    ∙ scan_plain ss n bytes maximum (p + length (frame s)) memory rest back
    ∙ ap (λ k. scan n bytes maximum k memory) (omega (arith, length-append (frame s) (render ss)))
