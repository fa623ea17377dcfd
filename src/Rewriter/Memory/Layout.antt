-- ===== src/Rewriter/Memory/Layout.antt =====
-- How a module's bytes are made up: the header, then sections, one of them the memory section.
use capnpc_wasm.Common.{
  ℕ, zero, suc, ◌+◌, ◌≤◌, ◌<◌, ◌≡◌, ◌≢◌, refl, ap, ◌∙◌, List, [], ◌∷◌, ◌++◌, arith, length,
  length-append, drop, All, get_or, append_assoc,
}
use capnpc_wasm.Common.Result.{ok}
use capnpc_wasm.Rewriter.Reader.{Reader, u32}
use capnpc_wasm.Rewriter.Reader.Locality.{Ahead}
use capnpc_wasm.Rewriter.Memory.{header}
use capnpc_wasm.Rewriter.Memory.Limits.{limits}

-- A section as it stands in a module; `size` is the encoding of the payload's length, which need
-- not be the shortest one.
pub record Section : Type 0 where
  pub id : ℕ
  pub size : List ℕ
  pub payload : List ℕ

abbrev pub frame : Section → List ℕ
frame s = s.id ∷ (s.size ++ s.payload)

abbrev pub render : List Section → List ℕ
render [] = []
render (s ∷ ss) = frame s ++ render ss

-- `size` reads as the length of the payload, wherever it stands.
pub record IsFramed (s : Section) : Type 0 where
  pub sized :
      (r : Reader) (p : ℕ) → Ahead r p s.size → u32 r p ≡ ok (length s.payload, p + length s.size)

pub record IsPlain (s : Section) : Type 0 where
  pub framed : IsFramed s
  pub no_memory : s.id ≢ 5

pub record Module : Type 0 where
  pub before : List Section
  pub memory : Section
  pub after : List Section
  pub initial : ℕ
  pub declared : ℕ

-- The bytes of a module of this make-up.
abbrev pub module_of : Module → List ℕ
module_of m = header ++ (render m.before ++ (frame m.memory ++ render m.after))

-- The sections are framed, the one memory section declares the limits, and these are in order.
pub record IsModule (m : Module) : Type 0 where
  pub before_plain : All IsPlain m.before
  pub after_plain : All IsPlain m.after
  pub framed : IsFramed m.memory
  pub is_memory : m.memory.id ≡ 5
  pub declares :
      (r : Reader) (p : ℕ)
      → Ahead r p m.memory.payload
      → limits r p ≡ ok ((m.initial, m.declared), p + length m.memory.payload)
  pub ordered : m.initial ≤ m.declared
  pub small : m.declared ≤ 65536

-- The reader that scans a whole module.
abbrev pub whole : List ℕ → Reader
whole bytes = record { bytes = bytes; end = length bytes }

get_or-append : (xs ys : List ℕ) (i : ℕ) → get_or (xs ++ ys) (length xs + i) 0 ≡ get_or ys i 0
get_or-append [] ys i = ap (λ t. get_or ys t 0) (omega arith)
get_or-append (x ∷ xs) ys i =
    let e : suc (length xs) + i ≡ suc (length xs + i) = omega arith in rw e (get_or-append xs ys i)

-- What follows a prefix of the bytes stands ahead of its end, in every reader that reaches so far.
pub Ahead-suffix :
    (front xs back : List ℕ) (end : ℕ)
    → length front + length xs ≤ end
    → Ahead (record { bytes = front ++ (xs ++ back); end = end }) (length front) xs
Ahead-suffix front [] back end h = omega arith
Ahead-suffix front (x ∷ xs) back end h = (
  omega arith,
  ap (λ t. get_or (front ++ (x ∷ (xs ++ back))) t 0) (omega arith)
      ∙ get_or-append front (x ∷ (xs ++ back)) 0,
  moved (Ahead-suffix (front ++ x ∷ []) xs back end (omega (arith, length-append front (x ∷ [])))),
)
  where
    moved :
        Ahead
          (record { bytes = (front ++ x ∷ []) ++ (xs ++ back); end = end })
          (length (front ++ x ∷ []))
          xs
        → Ahead (record { bytes = front ++ (x ∷ (xs ++ back)); end = end }) (length front + 1) xs
    moved a = rw (length-append, append_assoc) at a

drop_get :
    (bytes : List ℕ) (p : ℕ)
    → p < length bytes
    → drop p bytes ≡ get_or bytes p 0 ∷ drop (p + 1) bytes
drop_get [] p h = absurd (omega arith)
drop_get (b ∷ bytes) zero h = refl
drop_get (b ∷ bytes) (suc p) h =
    let e : suc p + 1 ≡ suc (p + 1) = omega arith in rw e (drop_get bytes p (omega arith))

-- Bytes ahead of a position are what the list has there.
pub Ahead-drop :
    (bytes xs : List ℕ) (p : ℕ)
    → Ahead (whole bytes) p xs
    → drop p bytes ≡ xs ++ drop (p + length xs) bytes
Ahead-drop bytes [] p a = ap (λ t. drop t bytes) (omega arith)
Ahead-drop bytes (x ∷ xs) p (l, e, a) =
    let n : p + suc (length xs) ≡ p + 1 + length xs = omega arith in
    rw n (
      drop_get bytes p l
      ∙ ap (λ t. t ∷ drop (p + 1) bytes) e
      ∙ ap (λ t. x ∷ t) (Ahead-drop bytes xs (p + 1) a))

pub drop_end : (bytes : List ℕ) (p : ℕ) → length bytes ≤ p → drop p bytes ≡ []
drop_end [] zero h = refl
drop_end [] (suc p) h = refl
drop_end (b ∷ bytes) zero h = absurd (omega arith)
drop_end (b ∷ bytes) (suc p) h = drop_end bytes p (omega arith)
