-- ===== src/Rewriter/Writer/Content.antt =====
-- What a writer stands for: one run of bytes. Every method appends to it, and `finish` returns it.
use capnpc_wasm.Common.{
  ℕ, suc, ◌+◌, ◌%◌, ◌≡◌, refl, sym, ap, ap₂, ◌∙◌, Bool-cases, false, ◌⊎◌, inl, inr, List, [], ◌∷◌,
  ◌++◌, map, append-nil, append_assoc, arith, length, length-append, replicate, drop, take-append,
  drop_past, drop-replicate, ◌==◌, flatten, flatten-append,
}
use mathlib.Core.List.{map-append}
use capnpc_wasm.Rewriter.Writer.Defs.{
  Writer, new, flush, byte, bytes, append, set_at, place, finish,
}

abbrev pub to_bytes : List ℕ → List ℕ
to_bytes = map (λ b. b % 256)

-- The bytes that `finish` is to return.
unfoldable pub content : Writer → List ℕ
content w = flatten w.parts ++ to_bytes w.pending

-- `length` counts the bytes collected so far.
pub record IsValid (w : Writer) : Type 0 where
  pub counted : w.size ≡ length (content w)

-- `w'` is `w` with `xs` written after its content.
pub record Appends (xs : List ℕ) (w w' : Writer) : Type 0 where
  pub written : content w' ≡ content w ++ xs
  pub grown : w'.size ≡ w.size + length xs

pub Appends-IsValid : (xs : List ℕ) (w w' : Writer) → Appends xs w w' → IsValid w → IsValid w'
Appends-IsValid xs w w' a v = record {
  counted = omega (arith, a.grown, v.counted, ap length a.written, length-append (content w) xs);
}

nil_of_length : (xs : List ℕ) → length xs ≡ 0 → xs ≡ []
nil_of_length [] h = refl
nil_of_length (x ∷ xs) h = absurd (omega arith)

flush_cases :
    (w : Writer)
    → ((w.pending ≡ []) × (flush w ≡ w))
      ⊎ (flush w ≡ record w { parts = w.parts ++ to_bytes w.pending ∷ []; pending = [] })
unfolding flush
flush_cases w = elim (Bool-cases (length w.pending == 0)) [
  | inl e ↦ inl (nil_of_length w.pending (ground arith), rw e)
  | inr e ↦ inr (rw e)
]

-- A flushed writer holds everything in its parts.
pub parts-flush : (w : Writer) → flatten (flush w).parts ≡ content w
unfolding content
parts-flush w = elim (flush_cases w) [
  | inl (p, e) ↦ rw (e, p) (sym (append-nil _))
  | inr e ↦ rw e (
      flatten-append w.parts (to_bytes w.pending ∷ [])
      ∙ ap (λ t. flatten w.parts ++ t) (append-nil (to_bytes w.pending)))
]

pub size-flush : (w : Writer) → (flush w).size ≡ w.size
size-flush w = elim (flush_cases w) [ inl (p, e) ↦ rw e | inr e ↦ rw e ]

pending-flush : (w : Writer) → (flush w).pending ≡ []
pending-flush w = elim (flush_cases w) [ inl (p, e) ↦ rw e p | inr e ↦ rw e ]

pub byte-Appends : (v : ℕ) (w : Writer) → Appends (v % 256 ∷ []) w (byte v w)
unfolding byte content
byte-Appends v w = record {
  written =
      ap (λ t. flatten w.parts ++ t) (map-append (λ b. b % 256) w.pending (v ∷ []))
      ∙ sym (append_assoc (flatten w.parts) (to_bytes w.pending) (v % 256 ∷ []));
  grown = omega arith;
}

-- Parts written behind a flushed writer.
pub flush_parts :
    (w : Writer) (ps : List (List ℕ)) (n : ℕ)
    → content (record { parts = (flush w).parts ++ ps; pending = (flush w).pending; size = n })
      ≡ content w ++ flatten ps
flush_parts w ps n =
    unfold content in
    rw pending-flush
      (append-nil _ ∙ flatten-append (flush w).parts ps ∙ ap (λ t. t ++ flatten ps) (parts-flush w))

bytes_lem :
    (x : ℕ) (xs : List ℕ) (w : Writer)
    → bytes (x ∷ xs) w ≡ record {
      parts = (flush w).parts ++ (x ∷ xs) ∷ [];
      pending = (flush w).pending;
      size = (flush w).size + length (x ∷ xs);
    }
unfolding bytes
bytes_lem x xs w = let e : (suc (length xs) == 0) ≡ false = ground arith in rw e

pub bytes-Appends : (xs : List ℕ) (w : Writer) → Appends xs w (bytes xs w)
bytes-Appends [] w = unfold bytes in record { written = sym (append-nil _); grown = omega arith }
bytes-Appends (x ∷ xs) w = rw bytes_lem (record {
  written = flush_parts w ((x ∷ xs) ∷ []) _ ∙ ap (λ t. content w ++ t) (append-nil (x ∷ xs));
  grown = omega (arith, size-flush w);
})

-- `append` writes the other writer's content.
pub append-Appends : (other w : Writer) → IsValid other → Appends (content other) w (append other w)
unfolding append
append-Appends other w v = record {
  written = flush_parts w (flush other).parts _ ∙ ap (λ t. content w ++ t) (parts-flush other);
  grown = omega (arith, size-flush w, size-flush other, v.counted);
}

pub Appends-trans :
    (xs ys : List ℕ) (u v w : Writer) → Appends xs u v → Appends ys v w → Appends (xs ++ ys) u w
Appends-trans xs ys u v w a b = record {
  written = b.written ∙ ap (λ t. t ++ ys) a.written ∙ append_assoc (content u) xs ys;
  grown = omega (arith, a.grown, b.grown, length-append xs ys);
}

-- `output.set` right behind what is already set.
pub set_at-append :
    (done part rest : List ℕ)
    → set_at (length done) part (done ++ rest) ≡ done ++ (part ++ drop (length part) rest)
unfolding set_at
set_at-append done part rest = rw (take-append, drop_past)

place-flatten :
    (parts : List (List ℕ)) (done : List ℕ) (n : ℕ)
    → n ≡ length (flatten parts)
    → place parts (length done) (done ++ replicate n 0) ≡ done ++ flatten parts
unfolding place
place-flatten [] done n e = rw e
place-flatten (part ∷ parts) done n e =
    let m = length (flatten parts) in
    let e' : n ≡ length part + m = omega (arith, length-append part (flatten parts)) in
    ap₂ (λ i o. place parts i o) (sym (length-append done part))
      (rw (e', set_at-append)
        (ap (λ t. done ++ (part ++ t)) (drop-replicate (length part) m 0)
          ∙ sym (append_assoc done part (replicate m 0))))
    ∙ place-flatten parts (done ++ part) m refl
    ∙ append_assoc done part (flatten parts)

-- `finish` returns exactly the bytes collected: no byte is lost, left zero or out of bounds.
pub finish-content : (w : Writer) → IsValid w → finish w ≡ content w
unfolding finish
finish-content w v =
    place-flatten (flush w).parts [] (flush w).size
      (omega (arith, size-flush w, v.counted, ap length (parts-flush w)))
    ∙ parts-flush w

pub IsValid-new : IsValid new
unfolding content
IsValid-new = omega arith
