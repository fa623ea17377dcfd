-- ===== src/Rewriter/Writer/Slots.antt =====
-- `slot` and `fill`: a place reserved in the output gets its content later.
use capnpc_wasm.Common.{
  ℕ, ◌+◌, ◌-◌, ◌≡◌, refl, ap, ap₂, ◌∙◌, List, [], ◌∷◌, ◌++◌, append-nil, append_assoc, arith,
  length, length-append, get_or, set, flatten, flatten-append,
}
use capnpc_wasm.Rewriter.Writer.Defs.{Writer, flush, slot, fill, finish}
use capnpc_wasm.Rewriter.Writer.Content.{
  to_bytes, content, IsValid, parts-flush, size-flush, flush_parts, finish-content,
}

module _ {ℓ} {A : Type ℓ} where
  set-append : (xs ys : List A) (y z : A) → set (xs ++ (y ∷ ys)) (length xs) z ≡ xs ++ (z ∷ ys)
  set-append [] ys y z = refl
  set-append (x ∷ xs) ys y z = ap (λ t. x ∷ t) (set-append xs ys y z)

  get_or-middle : (xs ys : List A) (y d : A) → get_or (xs ++ (y ∷ ys)) (length xs) d ≡ y
  get_or-middle [] ys y d = refl
  get_or-middle (x ∷ xs) ys y d = get_or-middle xs ys y d

-- What stands behind a slot of `u`, where `more` parts follow it.
abbrev pub behind : List (List ℕ) → Writer → List ℕ
behind more u = flatten more ++ to_bytes u.pending

pub slot-IsValid : (w : Writer) → IsValid w → IsValid (slot w).0
unfolding slot
slot-IsValid w v = record { counted = omega (arith, size-flush w, v.counted, ap length same) }
  where
    same : content (slot w).0 ≡ content w
    same = flush_parts w ([] ∷ []) _ ∙ append-nil (content w)

-- `u` has the slot that `slot w` reserved, and `more` parts behind it.
module _ (w u c : Writer) (more : List (List ℕ)) (later : u.parts ≡ (slot w).0.parts ++ more) where
  front : List (List ℕ)
  front = (flush w).parts

  index : (slot w).1 ≡ length front
  unfolding slot front
  index = omega (arith, length-append {0} (flush w).parts ([] ∷ []))

  parts : u.parts ≡ front ++ ([] ∷ more)
  unfolding slot front
  parts = later ∙ append_assoc (flush w).parts ([] ∷ []) more

  unfilled : content u ≡ content w ++ (behind more u)
  unfolding front
  unfilled =
      unfold content in
      ap (λ t. flatten t ++ to_bytes u.pending) parts
      ∙ ap (λ t. t ++ to_bytes u.pending) (flatten-append front ([] ∷ more))
      ∙ append_assoc (flatten front) (flatten more) (to_bytes u.pending)
      ∙ ap (λ t. t ++ (behind more u)) (parts-flush w)

  filled_parts : (xs : List ℕ) → set u.parts (slot w).1 xs ≡ front ++ (xs ∷ more)
  filled_parts xs = ap₂ (λ p i. set p i xs) parts index ∙ set-append front more [] xs

  empty_part : get_or u.parts (slot w).1 [] ≡ []
  empty_part = ap₂ (λ p i. get_or p i []) parts index ∙ get_or-middle front more [] []

  filled : IsValid c → content (fill (slot w).1 c u) ≡ content w ++ (content c ++ (behind more u))
  unfolding fill
  filled vc =
      unfold content front in
      ap (λ t. flatten t ++ to_bytes u.pending) (filled_parts (finish c))
      ∙ ap (λ t. t ++ to_bytes u.pending) (flatten-append front (finish c ∷ more))
      ∙ append_assoc (flatten front) (finish c ++ flatten more) (to_bytes u.pending)
      ∙ ap₂ (λ s t. s ++ t) (parts-flush w)
          (append_assoc (finish c) (flatten more) (to_bytes u.pending)
            ∙ ap (λ t. t ++ (behind more u)) (finish-content c vc))

  filled_size :
      (fill (slot w).1 c u).size
      ≡ u.size + length (finish c) - length (get_or u.parts (slot w).1 [])
  unfolding fill
  filled_size = refl

  -- A slot that `slot w` reserved and that `fill` fills, after whatever was written behind it,
  -- holds the content that it is filled with: between what stood before the slot and what was
  -- written behind it, of which nothing changes. The writer stays valid.
  pub fill-slot :
      IsValid c
      → IsValid u
      → (content u ≡ content w ++ (behind more u))
        × (content (fill (slot w).1 c u) ≡ content w ++ (content c ++ (behind more u)))
        × IsValid (fill (slot w).1 c u)
  fill-slot vc vu = (
    unfilled,
    filled vc,
    record {
      counted = omega (
        arith,
        filled_size,
        ap (λ (t : List ℕ). length t) empty_part,
        vu.counted,
        ap (λ (t : List ℕ). length t) unfilled,
        ap (λ (t : List ℕ). length t) (filled vc),
        ap (λ (t : List ℕ). length t) (finish-content c vc),
        length-append (content w) (behind more u),
        length-append (content w) (content c ++ (behind more u)),
        length-append (content c) (behind more u),
      );
    },
  )
