-- ===== src/Limits/Utf8/Size.antt =====
-- What `utf8Size` of sdk/typescript/limits.ts returns against the bytes of the encoded text.
use capnpc_wasm.Common.{
  ℕ, suc, ◌+◌, ◌-◌, ◌*◌, ◌≤◌, ◌<◌, ◌≡◌, ◌⊎◌, inl, true, false, ◌&&◌, List, [], ◌∷◌, arith, length,
  length-append,
}
use capnpc_wasm.Limits.Utf8.{
  Text, is_lead, is_trail, code_points, encode_point, encode_points, encode, width, size_loop,
  utf8_size,
}

length-encode_point : (code : ℕ) → length (encode_point code) ≡ width code
unfolding encode_point
length-encode_point code = ground arith

-- No text has fewer bytes than code units.
length_le-encode : (text : Text) → length text ≤ length (encode text)
unfolding code_points encode_points
length_le-encode [] = omega arith
length_le-encode (unit ∷ []) =
    ground (arith, length-encode_point unit, length-append (encode_point unit) [])
length_le-encode (unit ∷ next ∷ units) =
    let point : ℕ = 0x10000 + (unit - 0xd800) * 0x400 + (next - 0xdc00) in
    let pair = length-append (encode_point point) (encode_points (code_points units)) in
    let single = length-append (encode_point unit) (encode_points (code_points (next ∷ units))) in
    elim (is_lead unit && is_trail next)
      as (λ b.
        suc (suc (length units))
        ≤ length (
            encode_points (elim b [
              | true ↦ point ∷ code_points units
              | false ↦ unit ∷ code_points (next ∷ units)
            ]))) [
              | true ↦ ground (arith, length-encode_point point, pair, length_le-encode units)
              | false ↦
                  ground (arith, length-encode_point unit, single, length_le-encode (next ∷ units))
            ]

abbrev pub Counted : ℕ → ℕ → ℕ → Type 0
Counted maximum size counted =
    ((counted ≡ size) × (size ≤ maximum)) ⊎ ((maximum < counted) × (maximum < size))

size_loop-encode :
    (codes : List ℕ) (size maximum : ℕ)
    → size ≤ maximum
    → Counted maximum (size + length (encode_points codes)) (size_loop codes size maximum)
unfolding size_loop encode_points
size_loop-encode [] size maximum h = inl (omega arith, omega arith)
size_loop-encode (code ∷ codes) size maximum h = ground (
  arith,
  length-encode_point code,
  length-append (encode_point code) (encode_points codes),
  size_loop-encode codes (size + width code) maximum,
)

-- The size that `utf8Size` returns is the number of bytes of the encoded text if that is at most
-- the maximum, and otherwise it is, like that number, larger than the maximum.
pub utf8_size-encode :
    (text : Text) (maximum : ℕ) → Counted maximum (length (encode text)) (utf8_size text maximum)
unfolding utf8_size
utf8_size-encode text maximum =
    ground (arith, length_le-encode text, size_loop-encode (code_points text) 0 maximum)
