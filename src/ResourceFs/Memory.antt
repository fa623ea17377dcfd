-- ===== src/ResourceFs/Memory.antt =====
-- What the imports of sdk/typescript/resource-fs.ts may do to a guest's memory.
use capnpc_wasm.Common.{
  ℕ, zero, suc, ◌+◌, ◌*◌, ◌≤◌, ◌<◌, ◌≡◌, ◌⊎◌, ◌≢◌, ◌∙◌, refl, ap, inl, inr, not, true, false, ◌||◌,
  Option, none, some, List, [], ◌∷◌, arith, ltb, ◌==◌, Bool-cases, length, get_elem?, set, slice,
}
use capnpc_wasm.Common.Result.{ok}
use capnpc_wasm.ResourceFs.{
  WriteCall, wrote, write_threw, Shim, get_uint32, set_uint32, write_part, write_loop, write,
  outside, advance,
}

length-set : (xs : List ℕ) (i v : ℕ) → length (set xs i v) ≡ length xs
length-set [] i v = refl
length-set (x ∷ xs) zero v = refl
length-set (x ∷ xs) (suc i) v = ap suc (length-set xs i v)

get-set_other :
    (xs : List ℕ) (i j v : ℕ) → (i < j) ⊎ (j < i) → get_elem? (set xs j v) i ≡ get_elem? xs i
get-set_other [] i j v h = refl
get-set_other (x ∷ xs) zero zero v h = absurd (ground arith)
get-set_other (x ∷ xs) (suc i) zero v h = refl
get-set_other (x ∷ xs) zero (suc j) v h = refl
get-set_other (x ∷ xs) (suc i) (suc j) v h = get-set_other xs i j v (ground arith)

-- Memory that is the same but for the four bytes at `result`.
pub record Framed (result : ℕ) (before after : List ℕ) : Type 0 where
  pub sized : length after ≡ length before
  pub kept : (i : ℕ) → (i < result) ⊎ (result + 4 ≤ i) → get_elem? after i ≡ get_elem? before i

set_uint32-Framed :
    (result value : ℕ) (memory : List ℕ) → Framed result memory (set_uint32 result value memory)
unfolding set_uint32
set_uint32-Framed result value memory = record {
  sized = rw (length-set, length-set, length-set, length-set);
  kept = λ i h.
      get-set_other _ i (result + 3) _ (ground arith)
      ∙ get-set_other _ i (result + 2) _ (ground arith)
      ∙ get-set_other _ i (result + 1) _ (ground arith)
      ∙ get-set_other memory i result _ (ground arith);
}

Framed-trans :
    (result : ℕ) (a b c : List ℕ) → Framed result a b → Framed result b c → Framed result a c
Framed-trans result a b c f g = record {
  sized = g.sized ∙ f.sized;
  kept = λ i h. g.kept i h ∙ f.kept i h;
}

module _ {D : Type 0} (shim : Shim D) where
  write_loop-Framed :
      (count at result : ℕ) (offset : Option ℕ) (written : ℕ) (memory : List ℕ) (d : D)
      → Framed result memory (write_loop shim count at result offset written memory d).memory
  unfolding write_loop
  write_loop-Framed zero at result offset written memory d = set_uint32-Framed result written memory
  write_loop-Framed (suc count) at result offset written memory d =
      let address = get_uint32 memory at in
      let size = get_uint32 memory (at + 4) in
      elim (Bool-cases (ltb (length memory) (address + size))) [
        | inl e ↦ rw (write_loop, e) (record { sized = refl; kept = λ i h. refl })
        | inr e ↦
            go e (write_part shim offset (slice address (address + size) memory) d) refl
              (write_loop-Framed count (at + 8) result)
      ]
    where
      go :
          ltb (length memory) (get_uint32 memory at + get_uint32 memory (at + 4)) ≡ false
          → (part : WriteCall D)
          → write_part shim offset
              (slice
                (get_uint32 memory at)
                (get_uint32 memory at + get_uint32 memory (at + 4))
                memory)
              d
            ≡ part
          → ((offset : Option ℕ) (written : ℕ) (memory : List ℕ) (d : D)
              → Framed result memory
                  (write_loop shim count (at + 8) result offset written memory d).memory)
          → Framed result memory
              (write_loop shim (suc count) at result offset written memory d).memory
      go e (write_threw d' thrown) p rest =
          rw (write_loop, e, p) (record { sized = refl; kept = λ i h. refl })
      go e (wrote d' ret nwritten) p rest =
          let framed = set_uint32-Framed result (written + nwritten) memory in
          elim (Bool-cases (not (ret == 0) || not (nwritten == get_uint32 memory (at + 4)))) [
            | inl k ↦ rw (write_loop, e, p, k) framed
            | inr k ↦
                rw (write_loop, e, p, k)
                  (Framed-trans result memory _ _ framed (
                    rest (advance offset nwritten) (written + nwritten)
                      (set_uint32 result (written + nwritten) memory) d'))
          ]

  outside_memory :
      (pointer count result : ℕ) (memory : List ℕ)
      → outside shim pointer count result memory ≡ true
      → (length memory < pointer + count * 8) ⊎ (length memory < result + 4)
  outside_memory pointer count result memory e =
      elim (Bool-cases (ltb (length memory) (pointer + count * 8))) [
        | inl f ↦ inl (ground arith)
        | inr f ↦ inr (ground arith)
      ]

  -- A write never changes the guest's memory but for the four bytes at `result`, whatever the
  -- descriptor answers or throws. Without a descriptor it returns EBADF, and with one, if the vectors
  -- or the result do not lie in the memory, it returns EINVAL; both leave the descriptor and all of
  -- the memory as they were. In the remaining case both lie in the memory.
  pub write-Framed :
      (fd : Option D) (pointer count result : ℕ) (offset : Option ℕ) (memory : List ℕ)
      → Framed result memory (write shim fd pointer count result offset memory).memory
        × (((fd ≡ none)
              × (write shim fd pointer count result offset memory
                  ≡ record { ret = ok shim.errno_badf; memory = memory; descriptor = fd }))
            ⊎ ((fd ≢ none)
                × (((length memory < pointer + count * 8) ⊎ (length memory < result + 4))
                    × (write shim fd pointer count result offset memory
                        ≡ record { ret = ok shim.errno_inval; memory = memory; descriptor = fd })))
            ⊎ ((fd ≢ none) × (pointer + count * 8 ≤ length memory) × (result + 4 ≤ length memory)))
  unfolding write
  write-Framed none pointer count result offset memory =
      (record { sized = refl; kept = λ i h. refl }, inl (refl, refl))
  write-Framed (some d) pointer count result offset memory =
      elim (Bool-cases (outside shim pointer count result memory)) [
        | inl e ↦ rw e (
          record { sized = refl; kept = λ i h. refl },
          inr (inl (λ n. cc, (outside_memory pointer count result memory e, refl))),
        )
        | inr e ↦ rw e (
          write_loop-Framed count pointer result offset 0 memory d,
          inr (inr (λ n. cc, ground arith, ground arith)),
        )
      ]
