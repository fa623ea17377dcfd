-- ===== src/Rewriter/Memory/Limits.antt =====
-- What `boundedMemory` accepts and returns.
use capnpc_wasm.Common.{
  ℕ, ◌≤◌, min, ◌≡◌, sym, ap, ◌∙◌, false, not, ◌&&◌, ◌||◌, List, ◌∷◌, ◌++◌, arith, ltb, ◌==◌,
  if◌then◌else◌,
}
use capnpc_wasm.Common.Result.{ok, err, type_error}
use capnpc_wasm.Rewriter.Reader.{Reader, Reading, pure, throw_if, ◌>>=◌, ◌>>◌, byte, u32}
use capnpc_wasm.Rewriter.Reader.Locality.{
  Reads, reads_rules, Reads-u32, bind_inv, throw_if_inv, position_inv, end_position_inv, pure_inv,
}
use capnpc_wasm.Rewriter.Writer.{leb}
use capnpc_wasm.Rewriter.Memory.{bounded_memory}

-- The limits that a memory payload declares: the reads of `boundedMemory`, without its checks of
-- the limits and of the end.
pub limits : Reading (ℕ × ℕ)
limits = do
  count ← u32
  throw_if (not (count == 1)) (type_error "WASI command requires exactly one defined memory")
  flags ← byte
  throw_if (not (flags == 0) && not (flags == 1))
      (type_error "only unshared wasm32 memory is supported")
  initial ← u32
  declared ← if flags == 1 then u32 else pure 65536
  pure (initial, declared)

pub Reads-limits : Reads limits
unfolding limits
Reads-limits = search (reads_rules, Reads-u32) depth 20

-- The bytes that `boundedMemory` writes for limits.
abbrev pub memory_payload : ℕ → ℕ → List ℕ
memory_payload initial declared = 1 ∷ 1 ∷ (leb initial ++ leb declared)

-- The result of `boundedMemory` on a payload that declares `initial` and `declared`.
pub bounded_memory_ok :
    (maximum initial declared : ℕ) (r : Reader) (p : ℕ)
    → limits r p ≡ ok ((initial, declared), r.end)
    → initial ≤ declared
    → declared ≤ 65536
    → bounded_memory maximum r p ≡ (
        if ltb maximum initial
        then err (type_error "initial guest memory exceeds memoryPages limit")
        else ok (memory_payload initial (min maximum declared), r.end))
unfolding limits bounded_memory ◌>>=◌ byte
bounded_memory_ok maximum initial declared r p e h k = ground arith

-- The reads one after another.
pub limits_of :
    (r : Reader) (p : ℕ) (count flags initial declared : ℕ × ℕ)
    → u32 r p ≡ ok count
    → not (count.0 == 1) ≡ false
    → byte r count.1 ≡ ok flags
    → (not (flags.0 == 0) && not (flags.0 == 1)) ≡ false
    → u32 r flags.1 ≡ ok initial
    → (if flags.0 == 1 then u32 else pure 65536) r initial.1 ≡ ok declared
    → limits r p ≡ ok ((initial.0, declared.0), declared.1)
unfolding limits ◌>>=◌
limits_of r p count flags initial declared a b c d e f =
    rw (a, ◌>>=◌) (rw b (rw (c, ◌>>=◌) (rw d (rw (e, ◌>>=◌) (rw (f, ◌>>=◌))))))

not_lt : (a b : ℕ) → ltb a b ≡ false → b ≤ a
not_lt a b h = ground arith

last_checks :
    (r : Reader) (p initial declared : ℕ)
    → (not (p == r.end) || ltb declared initial || ltb 65536 declared) ≡ false
    → (p ≡ r.end) × (initial ≤ declared) × (declared ≤ 65536)
last_checks r p initial declared h = ground arith

-- Where `boundedMemory` succeeds, the payload declares limits in order, within the maximum, and
-- fills its section.
pub bounded_memory_inv :
    (maximum : ℕ) (r : Reader) (p : ℕ) (out : List ℕ) (q : ℕ)
    → bounded_memory maximum r p ≡ ok (out, q)
    → (initial : ℕ) × (declared : ℕ) × (limits r p ≡ ok ((initial, declared), r.end))
      × (initial ≤ declared)
      × (declared ≤ 65536)
      × (initial ≤ maximum)
      × (out ≡ memory_payload initial (min maximum declared))
unfolding bounded_memory
bounded_memory_inv maximum r p out q e =
    let (count, e₁, k₁) = bind_inv u32 _ r p e in
    let (c₁, k₂) = throw_if_inv r count.1 _ _ _ k₁ in
    let k₃ = end_position_inv r count.1 _ (position_inv r count.1 _ k₂) in
    let (c₂, k₄) = throw_if_inv r count.1 _ _ _ k₃ in
    let (flags, e₂, k₅) = bind_inv byte _ r count.1 k₄ in
    let (c₃, k₆) = throw_if_inv r flags.1 _ _ _ k₅ in
    let (initial, e₃, k₇) = bind_inv u32 _ r flags.1 k₆ in
    let (declared, e₄, k₈) = bind_inv (if flags.0 == 1 then u32 else pure 65536) _ r initial.1 k₇ in
    let (c₄, k₉) = throw_if_inv r declared.1 _ _ _ (position_inv r declared.1 _ k₈) in
    let (c₅, k₁₀) = throw_if_inv r declared.1 _ _ _ k₉ in
    let (filled, ordered, small) = last_checks r declared.1 initial.0 declared.0 c₄ in
    let reads = limits_of r p count flags initial declared e₁ c₁ e₂ c₃ e₃ e₄ in
    (
      initial.0,
      declared.0,
      reads ∙ ap (λ t. ok ((initial.0, declared.0), t)) filled,
      ordered,
      small,
      not_lt maximum initial.0 c₅,
      sym (pure_inv r declared.1 _ k₁₀).0,
    )
