-- ===== src/Rewriter/Memory/Scan/Inverse.antt =====
-- A scan that succeeds shows how the module is made up.
use capnpc_wasm.Common.{
  ℕ, ◌+◌, ◌≤◌, ◌<◌, ◌≡◌, ◌≢◌, sym, ap, ◌∙◌, subst, ◌⊎◌, inl, inr, Option, List, arith, ltb, ◌==◌,
  if◌then◌else◌, length, length-append, get_or,
}
use capnpc_wasm.Common.Result
use capnpc_wasm.Common.Result.{Error, Result, ok, err, stuck, bind-eq-ok}
use capnpc_wasm.Rewriter.Reader.{Reader, byte, u32}
use capnpc_wasm.Rewriter.Reader.Locality.{
  Ahead, Ahead-append, Ahead-window, length-window, window, Consumed, Reads-u32,
}
use capnpc_wasm.Rewriter.Memory.{Memory, memory_section, scan_section}
use capnpc_wasm.Rewriter.Memory.Layout.{Section, frame, IsFramed, whole}

-- What one round leaves in `memory`.
abbrev pub Next : List ℕ → ℕ → ℕ → Option Memory → Section → Option Memory → Type 0
Next bytes maximum p memory s memory' =
    ((s.id ≢ 5) × (memory' ≡ memory))
    ⊎ ((s.id ≡ 5)
        × (memory_section bytes maximum p (p + 1 + length s.size) (p + length (frame s)) memory
            ≡ ok memory'))

pub record Scanned (bytes : List ℕ) (maximum p : ℕ) (memory : Option Memory) (q : ℕ)
    (memory' : Option Memory) : Type 0 where
  pub section : Section
  pub framed : IsFramed section
  pub ahead : Ahead (whole bytes) p (frame section)
  pub moved : q ≡ p + length (frame section)
  pub next : Next bytes maximum p memory section memory'

byte_inv :
    (r : Reader) (p b q : ℕ)
    → byte r p ≡ ok (b, q)
    → (b ≡ get_or r.bytes p 0) × (q ≡ p + 1) × (p < r.end)
unfolding byte
byte_inv r p b q e = ground arith

-- The tests of a round, behind its two reads.
abbrev tests : List ℕ → ℕ → ℕ → ℕ → ℕ → ℕ → Option Memory → Result (ℕ × Option Memory)
tests bytes maximum start id at n memory =
    if ltb (length bytes) (at + n)
    then err (Error.type_error "truncated Wasm section")
    else Result.◌>>=◌
        (if id == 5 then memory_section bytes maximum start at (at + n) memory else ok memory)
        (λ m. ok (at + n, m))

tests_inv :
    (bytes : List ℕ) (maximum start id at n q : ℕ) (memory memory' : Option Memory)
    → tests bytes maximum start id at n memory ≡ ok (q, memory')
    → (at + n ≤ length bytes)
      × (q ≡ at + n)
      × (((id ≢ 5) × (memory' ≡ memory))
          ⊎ ((id ≡ 5) × (memory_section bytes maximum start at (at + n) memory ≡ ok memory')))
tests_inv bytes maximum start id at n q memory memory' e = ground arith

next_at :
    (bytes : List ℕ) (maximum start id a a' b b' : ℕ) (memory memory' : Option Memory)
    → a ≡ a'
    → b ≡ b'
    → ((id ≢ 5) × (memory' ≡ memory))
      ⊎ ((id ≡ 5) × (memory_section bytes maximum start a b memory ≡ ok memory'))
    → ((id ≢ 5) × (memory' ≡ memory))
      ⊎ ((id ≡ 5) × (memory_section bytes maximum start a' b' memory ≡ ok memory'))
next_at bytes maximum start id a a' b b' memory memory' p q (inl h) = inl h
next_at bytes maximum start id a a' b b' memory memory' p q (inr (h, e)) = inr (h, rw (← p, ← q) e)

pub scan_section_inv :
    (bytes : List ℕ) (maximum p q : ℕ) (memory memory' : Option Memory)
    → scan_section bytes maximum p memory ≡ ok (q, memory')
    → Scanned bytes maximum p memory q memory'
unfolding scan_section
scan_section_inv bytes maximum p q memory memory' e =
    let r : Reader = whole bytes in
    let (hd, e₁, k₁) = bind-eq-ok (byte r p) _ e in
    let (size, e₂, k₂) = bind-eq-ok (u32 r hd.1) _ k₁ in
    let (eb, ep, lt) = byte_inv r p hd.0 hd.1 e₁ in
    let (inside, moved, next) = tests_inv bytes maximum p hd.0 size.1 size.0 q memory memory' k₂ in
    let c : Consumed u32 r hd.1 size.0 size.1 =
      Reads-u32.at r hd.1 size.0 size.1 (omega arith) e₂ in
    let payload = window r size.1 size.0 in
    let long : length payload ≡ size.0 = length-window r size.1 size.0 in
    let at : size.1 ≡ p + 1 + length c.taken = omega (arith, c.moved) in
    let s : Section = record { id = hd.0; size = c.taken; payload = payload } in
    let stop : size.1 + size.0 ≡ p + length (frame s) =
      omega (arith, length-append c.taken payload) in
    record {
      section = s;
      framed = record {
        sized = λ t i a. c.again t i a ∙ ap (λ x. ok (x, i + length c.taken)) (sym long);
      };
      ahead = (
        lt,
        sym eb,
        Ahead-append r (p + 1) c.taken payload (subst (λ t. Ahead r t c.taken) ep c.ahead)
            (subst (λ t. Ahead r t payload) at (Ahead-window r size.1 size.0 inside)),
      );
      moved = moved ∙ stop;
      next = next_at bytes maximum p hd.0 size.1 _ (size.1 + size.0) _ memory memory' at stop next;
    }
