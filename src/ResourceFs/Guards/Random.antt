-- ===== src/ResourceFs/Guards/Random.antt =====
-- What `random_get` of sdk/typescript/resource-fs.ts leaves in a guest's memory.
use capnpc_wasm.Common.{
  ℕ, zero, suc, ◌+◌, ◌-◌, ◌≤◌, ◌<◌, min, ◌≡◌, ◌∙◌, sym, subst, refl, ap, false, List, [], ◌∷◌, ◌++◌,
  append_assoc, arith, ltb, Bool-cases, length, take, drop, take-append, drop_past,
  take-append-drop, length-append, length-drop, inl, inr,
}
use capnpc_wasm.Common.Result.{Result, ok}
use capnpc_wasm.Rewriter.Writer.{set_at}
use capnpc_wasm.ResourceFs.Guards.{unsigned, Random, fill_loop, random_get}

suc_add : (m n : ℕ) → suc m + n ≡ suc (m + n)
suc_add m n = omega arith

drop-drop : (k n : ℕ) (xs : List ℕ) → drop k (drop n xs) ≡ drop (n + k) xs
drop-drop k zero xs = ap (λ m. drop m xs) (omega arith)
drop-drop zero (suc n) [] = rw (suc_add n 0) refl
drop-drop (suc k) (suc n) [] = rw (suc_add n (suc k)) refl
drop-drop k (suc n) (x ∷ xs) = rw (suc_add n k) (drop-drop k n xs)

take-set_at :
    (n : ℕ) (part xs : List ℕ)
    → n ≤ length xs
    → take (n + length part) (set_at n part xs) ≡ take n xs ++ part
unfolding set_at
take-set_at zero part xs l =
    ap (λ m. take m (set_at zero part xs)) (omega arith)
    ∙ take-append part (drop (0 + length part) xs)
take-set_at (suc n) part [] l = absurd (omega arith)
take-set_at (suc n) part (x ∷ xs) l =
    rw (suc_add n (length part)) (ap (x ∷◌) (take-set_at n part xs (omega arith)))

drop-set_at :
    (n k : ℕ) (part xs : List ℕ)
    → n ≤ length xs
    → drop (n + length part + k) (set_at n part xs) ≡ drop (n + length part + k) xs
unfolding set_at
drop-set_at zero k part xs l =
    ap (λ m. drop m (set_at zero part xs)) (omega arith)
    ∙ drop_past part (drop (0 + length part) xs) k
    ∙ drop-drop k (0 + length part) xs
drop-set_at (suc n) k part [] l = absurd (omega arith)
drop-set_at (suc n) k part (x ∷ xs) l =
    rw (suc_add n (length part), suc_add (n + length part) k)
      (drop-set_at n k part xs (omega arith))

length-set_at :
    (n : ℕ) (part xs : List ℕ) → n + length part ≤ length xs → length (set_at n part xs) ≡ length xs
unfolding set_at
length-set_at zero part xs l =
    length-append part (drop (0 + length part) xs)
    ∙ omega (arith, l, length-drop (0 + length part) xs)
length-set_at (suc n) part [] l = absurd (omega arith)
length-set_at (suc n) part (x ∷ xs) l =
    rw (suc_add n (length part)) (ap suc (length-set_at n part xs (omega arith)))

-- The documented behaviour of getRandomValues: it fills an array of at most 65536 bytes.
abbrev pub Fills : (Source : Type 0) → Random Source → Type 0
Fills Source random =
    (n : ℕ) (source : Source)
    → n ≤ 65536
    → (bytes : List ℕ) × (next : Source) × (length bytes ≡ n) × (random n source ≡ ok (bytes, next))

-- `bytes` over the memory from `start` to `end`.
abbrev pub over : ℕ → ℕ → List ℕ → List ℕ → List ℕ
over start end bytes memory = take start memory ++ (bytes ++ drop end memory)

over-set_at :
    (n start from end : ℕ) (part rest memory : List ℕ)
    → n ≤ length memory
    → start ≡ n + length part
    → start ≤ end
    → from ≡ n
    → over start end rest (set_at n part memory) ≡ over from end (part ++ rest) memory
over-set_at n start from end part rest memory l e k f =
    let split : end ≡ n + length part + (end - start) = omega (arith, e, k) in
    let dropped : drop end (set_at n part memory) ≡ drop end memory =
      subst (λ m. drop m (set_at n part memory) ≡ drop m memory) (sym split)
        (drop-set_at n (end - start) part memory l) in
    rw (dropped, e, f, take-set_at n part memory l, append_assoc, append_assoc)

module _ {Source : Type 0} (random : Random Source) (law : Fills Source random) where
  -- The memory and the source, where the bytes up to `filled` have been drawn.
  abbrev Filled : ℕ → ℕ → ℕ → List ℕ → Result (List ℕ × Source) → Type 0
  Filled buffer count filled memory result =
      (bytes : List ℕ) × (next : Source) × (length bytes ≡ count - filled)
      × (result ≡ ok (over (buffer + min count filled) (buffer + count) bytes memory, next))

  fill_loop-Filled :
      (fuel buffer count filled : ℕ) (memory : List ℕ) (source : Source)
      → 0 < fuel
      → count < filled + fuel
      → buffer + count ≤ length memory
      → Filled buffer count filled memory (fill_loop random fuel buffer count filled memory source)
  unfolding fill_loop
  fill_loop-Filled zero buffer count filled memory source z l k = absurd (omega arith)
  fill_loop-Filled (suc fuel) buffer count filled memory source z l k =
      elim (Bool-cases (ltb filled count)) [
        | inr e ↦
            let past : min count filled ≡ count = ground arith in
            ([], source, ground arith, rw (fill_loop, e, past, take-append-drop))
        | inl e ↦
            let below : filled < count = ground arith in
            let n = min count (filled + 65536) - filled in
            let (bytes, next, sized, drawn) = law n source (omega arith) in
            let memory' = set_at (buffer + filled) bytes memory in
            let fits = length-set_at (buffer + filled) bytes memory (omega (arith, sized, k)) in
            let (rest, last, sized', done) =
              fill_loop-Filled fuel buffer count (filled + 65536) memory' next (omega arith)
                (omega arith) (omega (arith, fits, k)) in
            (
              bytes ++ rest,
              last,
              length-append bytes rest ∙ omega (arith, sized, sized', below),
              rw (fill_loop, e, drawn, done)
                  (ap (λ m. ok (m, last))
                    (over-set_at (buffer + filled) (buffer + min count (filled + 65536))
                      (buffer + min count filled) (buffer + count) bytes rest memory
                      (omega (arith, k, below)) (omega (arith, sized, below)) (omega arith)
                      (omega (arith, below)))),
            )
      ]

  -- Where the range that the guest asks for lies in its memory, and getRandomValues fills an array of
  -- at most 65536 bytes, random_get returns 0, whatever its length: it has replaced the bytes of the
  -- range by as many drawn ones, and no others.
  pub random_get-over :
      (errno buffer count : ℕ) (memory : List ℕ) (source : Source)
      → unsigned buffer + unsigned count ≤ length memory
      → (bytes : List ℕ) × (next : Source) × (length bytes ≡ unsigned count)
        × (random_get random errno buffer count memory source
            ≡ ok (0, over (unsigned buffer) (unsigned buffer + unsigned count) bytes memory, next))
  unfolding random_get
  random_get-over errno buffer count memory source h =
      let none_filled : unsigned buffer + min (unsigned count) 0 ≡ unsigned buffer = omega arith in
      let (bytes, next, sized, filled) =
        fill_loop-Filled (suc (unsigned count)) (unsigned buffer) (unsigned count) 0 memory source
          (omega arith) (omega arith) h in
      let inside : ltb (length memory) (unsigned buffer + unsigned count) ≡ false = ground arith in
      (bytes, next, sized ∙ omega arith, rw (inside, filled, none_filled))
