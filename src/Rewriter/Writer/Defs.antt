-- ===== src/Rewriter/Writer/Defs.antt =====
-- The state and the methods of `class Writer`, and the function `leb`.
use capnpc_wasm.Common.{
  ℕ, zero, suc, ◌+◌, ◌-◌, ◌/◌, ◌%◌, ◌^◌, bit_and, bit_or, not, ◌&&◌, ◌||◌, List, [], ◌∷◌, ◌++◌, map,
  length, replicate, ltb, ◌==◌, if◌then◌else◌, take, drop, get_or, set,
}

-- `pending` is the private field `#pending`.
pub record Writer : Type 0 where
  pub parts : List (List ℕ)
  pub pending : List ℕ
  pub size : ℕ

abbrev pub new : Writer
new = record { parts = []; pending = []; size = 0 }

-- `#flush`; `Uint8Array.from` keeps each number modulo 256.
unfoldable pub flush : Writer → Writer
flush w =
    if length w.pending == 0
    then w
    else record w { parts = w.parts ++ map (λ b. b % 256) w.pending ∷ []; pending = [] }

unfoldable pub byte : ℕ → Writer → Writer
byte value w = record w { pending = w.pending ++ value ∷ []; size = w.size + 1 }

unfoldable pub bytes : List ℕ → Writer → Writer
unfolding flush
bytes data_ w =
    if length data_ == 0
    then w
    else let f = flush w in record f { parts = f.parts ++ data_ ∷ []; size = f.size + length data_ }

-- `do { … } while (value)` takes at most `value + 1` rounds. `value & 127` reads the low 32 bits.
unfoldable pub u32_loop : ℕ → ℕ → Writer → Writer
u32_loop zero value w = w
u32_loop (suc fuel) value w =
    let low = bit_and (value % 2 ^ 32) 127 in
    let value' = value / 128 in
    let rest = u32_loop fuel value' (byte (bit_or low 128) w) in
    if value' == 0 then byte low w else rest

unfoldable pub u32 : ℕ → Writer → Writer
unfolding u32_loop byte
u32 value w = u32_loop (suc value) value w

-- `value >> 7` of an int32, on its bit pattern.
abbrev pub sar_seven : ℕ → ℕ
sar_seven v = if ltb v (2 ^ 31) then v / 128 else v / 128 + (2 ^ 32 - 2 ^ 25)

-- An int32 ends after at most five rounds.
unfoldable pub s32_loop : ℕ → ℕ → Writer → Writer
s32_loop zero value w = w
s32_loop (suc fuel) value w =
    let low = bit_and value 127 in
    let value' = sar_seven value in
    let last =
      (value' == 0 && bit_and low 64 == 0)
      || (value' == (2 ^ 32 - 1) && not (bit_and low 64 == 0)) in
    let rest = s32_loop fuel value' (byte (bit_or low 128) w) in if last then byte low w else rest

unfoldable pub s32 : ℕ → Writer → Writer
unfolding s32_loop byte
s32 value w = s32_loop 5 value w

-- `encoded` is what `encoder.encode` gives for the text.
unfoldable pub name : List ℕ → Writer → Writer
unfolding u32 bytes
name encoded w = bytes encoded (u32 (length encoded) w)

-- The other writer is flushed too, and its parts are shared.
unfoldable pub append : Writer → Writer → Writer
unfolding flush
append other w =
    let o = flush other in
    let f = flush w in record f { parts = f.parts ++ o.parts; size = f.size + o.size }

-- The writer after the call, and the index of the reserved part.
unfoldable pub slot : Writer → Writer × ℕ
unfolding flush
slot w =
    let f = flush w in (record f { parts = f.parts ++ [] ∷ [] }, length (f.parts ++ [] ∷ []) - 1)

-- `output.set(part, offset)`, inside the bounds of `output`.
unfoldable pub set_at : ℕ → List ℕ → List ℕ → List ℕ
set_at offset part output = take offset output ++ (part ++ drop (offset + length part) output)

unfoldable pub place : List (List ℕ) → ℕ → List ℕ → List ℕ
unfolding set_at
place [] offset output = output
place (part ∷ parts) offset output = place parts (offset + length part) (set_at offset part output)

unfoldable pub finish : Writer → List ℕ
unfolding flush place
finish w = let f = flush w in place f.parts 0 (replicate f.size 0)

-- `fill`; a slot out of range is not reached by the program.
unfoldable pub fill : ℕ → Writer → Writer → Writer
fill index content w =
    let bytes' = finish content in
    record w {
      parts = set w.parts index bytes';
      size = w.size + length bytes' - length (get_or w.parts index []);
    }

-- The function `leb`, by the same rounds as `u32`.
unfoldable pub leb_loop : ℕ → ℕ → List ℕ
leb_loop zero value = []
leb_loop (suc fuel) value =
    let b = bit_and (value % 2 ^ 32) 127 in
    let value' = value / 128 in
    let rest = leb_loop fuel value' in if value' == 0 then bit_or b 0 ∷ [] else bit_or b 128 ∷ rest

unfoldable pub leb : ℕ → List ℕ
unfolding leb_loop
leb value = leb_loop (suc value) value
