-- ===== src/Rewriter/Memory/Exact.antt =====
-- `boundMemory` as a whole: what it does to a module, and that it accepts nothing else.
use capnpc_wasm.Common.{
  ℕ, suc, ◌+◌, ◌-◌, ◌≤◌, min, ◌≡◌, refl, sym, ap, ap₂, ◌∙◌, subst, Bool-cases, inl, inr, Option,
  none, some, List, [], ◌∷◌, ◌++◌, arith, ltb, if◌then◌else◌, length, length-append, take, drop,
  append-nil, append_assoc, take-append, drop-append,
}
use capnpc_wasm.Common.Result
use capnpc_wasm.Common.Result.{Result, ok, err, stuck, type_error, bind-eq-ok}
use capnpc_wasm.Rewriter.Reader.Locality.{Ahead, Ahead-end, Ahead-front, Ahead-back}
use capnpc_wasm.Rewriter.Writer.{leb}
use capnpc_wasm.Rewriter.Memory.{
  Memory, uint8array, header, memory_section, scan, replace, bound_memory,
}
use capnpc_wasm.Rewriter.Memory.Header.{module_bytes-header}
use capnpc_wasm.Rewriter.Memory.Replace.{replace_lem}
use capnpc_wasm.Rewriter.Memory.Limits.{limits, memory_payload, bounded_memory_ok}
use capnpc_wasm.Rewriter.Memory.Layout.{
  Section, frame, render, Module, module_of, IsModule, whole, Ahead-suffix,
}
use capnpc_wasm.Rewriter.Memory.Scan.{scan_memory, scan_round, scan_plain, scan_end}

-- The module with its memory section replaced: the shortest encodings of the same initial size
-- and of the lower of the two maxima.
abbrev pub bounded : ℕ → Module → Module
bounded maximum m =
    let payload = memory_payload m.initial (min maximum m.declared) in
    record m {
      memory = record { id = 5; size = leb (length payload); payload = payload };
      declared = min maximum m.declared;
    }

length-render : (ss : List Section) → length ss ≤ length (render ss)
length-render [] = omega arith
length-render (s ∷ ss) = omega (arith, length-append (frame s) (render ss), length-render ss)

-- The whole scan of a module of known make-up.
module _ (maximum : ℕ) (m : Module) (is : IsModule m) where
  abbrev before_bytes : List ℕ
  before_bytes = header ++ render m.before

  abbrev bytes : List ℕ
  bytes = module_of m

  abbrev start : ℕ
  start = 8 + length (render m.before)

  abbrev stop : ℕ
  stop = start + length (frame m.memory)

  total : length bytes ≡ stop + length (render m.after)
  total = omega (
    arith,
    length-append (render m.before) (frame m.memory ++ render m.after),
    length-append (frame m.memory) (render m.after),
  )

  all-Ahead : Ahead (whole bytes) 8 (render m.before ++ (frame m.memory ++ render m.after))
  all-Ahead =
      let body = render m.before ++ (frame m.memory ++ render m.after) in
      subst (λ t. Ahead (record { bytes = header ++ t; end = length bytes }) 8 body)
        (append-nil body) (Ahead-suffix header body [] (length bytes) (omega arith))

  tail-Ahead : Ahead (whole bytes) start (frame m.memory ++ render m.after)
  tail-Ahead = Ahead-back (whole bytes) 8 (render m.before) _ all-Ahead

  memory-Ahead : Ahead (whole bytes) start (frame m.memory)
  memory-Ahead = Ahead-front (whole bytes) start (frame m.memory) (render m.after) tail-Ahead

  after-Ahead : Ahead (whole bytes) stop (render m.after)
  after-Ahead = Ahead-back (whole bytes) start (frame m.memory) (render m.after) tail-Ahead

  -- The rounds: one for each section, one to see the end, and those left over.
  rounds : (k : ℕ) × (suc (length bytes) ≡ length m.before + suc (length m.after + suc k))
  rounds = (
    length bytes - (length m.before + length m.after + 1),
    omega (arith, total, length-render m.before, length-render m.after),
  )

  abbrev found : Memory
  found =
      let payload = memory_payload m.initial (min maximum m.declared) in
      record { start = start; stop = stop; replacement = 5 ∷ (leb (length payload) ++ payload) }

  payload_limits :
      limits (record { bytes = bytes; end = stop }) (start + 1 + length m.memory.size)
      ≡ ok ((m.initial, m.declared), stop)
  payload_limits =
      let at = start + 1 + length m.memory.size in
      let long : at + length m.memory.payload ≡ stop =
        omega (arith, length-append m.memory.size m.memory.payload) in
      let here : Ahead (whole bytes) at m.memory.payload =
        Ahead-back (whole bytes) (start + 1) m.memory.size m.memory.payload memory-Ahead.2 in
      is.declares (record { bytes = bytes; end = stop }) at
        (Ahead-end bytes (length bytes) stop at m.memory.payload here (omega (arith, long)))
      ∙ ap (λ t. ok ((m.initial, m.declared), t)) long

  section_result :
      memory_section bytes maximum start (start + 1 + length m.memory.size) stop none ≡ (
        if ltb maximum m.initial
        then err (type_error "initial guest memory exceeds memoryPages limit")
        else ok (some found))
  unfolding memory_section
  section_result =
      let e =
        bounded_memory_ok maximum m.initial m.declared (record { bytes = bytes; end = stop })
          (start + 1 + length m.memory.size) payload_limits is.ordered is.small in
      elim (Bool-cases (ltb maximum m.initial)) [
        | inl large ↦ rw (e, large)
        | inr fits ↦ rw (e, fits)
      ]

  scan_result : scan (suc (length bytes)) bytes maximum 8 none ≡ (
      if ltb maximum m.initial
      then err (type_error "initial guest memory exceeds memoryPages limit")
      else ok (some found))
  scan_result =
      let (k, e) = rounds in
      let n = length m.after + suc k in
      let before_ahead = Ahead-front (whole bytes) 8 (render m.before) _ all-Ahead in
      ap (λ t. scan t bytes maximum 8 none) e
      ∙ scan_plain m.before (suc n) bytes maximum 8 none is.before_plain before_ahead
      ∙ scan_round n bytes maximum start none memory-Ahead.0
      ∙ ap (λ t. Result.◌>>=◌ t (λ next. scan n bytes maximum next.0 next.1))
          (scan_memory bytes m.memory start is.framed memory-Ahead maximum none is.is_memory
            ∙ ap (λ t. Result.◌>>=◌ t (λ memory'. ok (stop, memory'))) section_result)
      ∙ finished n k refl
    where
      finished :
          (n k : ℕ)
          → n ≡ length m.after + suc k
          → Result.◌>>=◌ {A = ℕ × Option Memory}
              (Result.◌>>=◌
                (if ltb maximum m.initial
                  then err (type_error "initial guest memory exceeds memoryPages limit")
                  else ok (some found))
                (λ memory'. ok (stop, memory')))
              (λ next. scan n bytes maximum next.0 next.1)
            ≡ (if ltb maximum m.initial
                then err (type_error "initial guest memory exceeds memoryPages limit")
                else ok (some found))
      finished n k e = elim (Bool-cases (ltb maximum m.initial)) [
        | inl large ↦ rw large
        | inr fits ↦ rw fits (
            ap (λ t. scan t bytes maximum stop (some found)) e
            ∙ scan_plain m.after (suc k) bytes maximum stop (some found) is.after_plain after-Ahead
            ∙ scan_end k bytes maximum _ (some found) (omega (arith, total)))
      ]

  taken : take start bytes ≡ before_bytes
  taken =
      let e : start ≡ length before_bytes = omega arith in
      ap (λ i. take i bytes) e ∙ take-append before_bytes (frame m.memory ++ render m.after)

  dropped : drop stop bytes ≡ render m.after
  dropped =
      let front = before_bytes ++ frame m.memory in
      ap₂ (λ i l. drop i l)
        (let e : stop ≡ length front = omega (arith, length-append before_bytes (frame m.memory)) in
          e)
        (sym (append_assoc before_bytes (frame m.memory) (render m.after)))
      ∙ drop-append front (render m.after)

  -- On a module with one memory section whose limits are in order, `boundMemory` fails exactly
  -- when the initial size exceeds the maximum, with that error. Otherwise it returns the same
  -- module with the memory section alone replaced: the same initial size, the lower of the two
  -- maxima, in shortest form.
  pub bound_memory-module : bound_memory (uint8array bytes) maximum ≡ (
      if ltb maximum m.initial
      then err (type_error "initial guest memory exceeds memoryPages limit")
      else ok (module_of (bounded maximum m)))
  unfolding bound_memory
  bound_memory-module =
      let body = render m.before ++ (frame m.memory ++ render m.after) in
      ap
        (λ t.
          Result.◌>>=◌ t
            (λ b. Result.◌>>=◌ (scan (suc (length b)) b maximum 8 none) (λ x. replace b x)))
        (module_bytes-header body)
      ∙ ap (λ t. Result.◌>>=◌ t (λ x. replace bytes x)) scan_result
      ∙ finish
    where
      finish :
          Result.◌>>=◌
            (if ltb maximum m.initial
              then err (type_error "initial guest memory exceeds memoryPages limit")
              else ok (some found))
            (λ x. replace bytes x)
          ≡ (if ltb maximum m.initial
              then err (type_error "initial guest memory exceeds memoryPages limit")
              else ok (module_of (bounded maximum m)))
      finish = elim (Bool-cases (ltb maximum m.initial)) [
        | inl large ↦ rw large
        | inr fits ↦ rw fits (
            replace_lem bytes found (omega arith) (omega (arith, total))
            ∙ ap ok (
                ap₂ (λ a c. a ++ (found.replacement ++ c)) taken dropped
                ∙ append_assoc header (render m.before) (found.replacement ++ render m.after)))
      ]
