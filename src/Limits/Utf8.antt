-- ===== src/Limits/Utf8.antt =====
-- `utf8Size` of sdk/typescript/limits.ts, with the string iterator and TextEncoder that it stands
-- in for. A text is the list of its UTF-16 code units.
use capnpc_wasm.Common.{
  ℕ, ◌+◌, ◌-◌, ◌*◌, ◌/◌, ◌%◌, Bool, true, false, ◌&&◌, List, [], ◌∷◌, ◌++◌, ltb, leb, length,
  if◌then◌else◌,
}
pub mod Size

abbrev pub Text : Type 0
Text = List ℕ

abbrev pub is_lead : ℕ → Bool
is_lead unit = leb 0xd800 unit && ltb unit 0xdc00

abbrev pub is_trail : ℕ → Bool
is_trail unit = leb 0xdc00 unit && ltb unit 0xe000

-- `for (const point of text)`: a pair of surrogates is one point, a lone one its own.
unfoldable pub code_points : Text → List ℕ
code_points [] = []
code_points (unit ∷ []) = unit ∷ []
code_points (unit ∷ next ∷ units) = elim (is_lead unit && is_trail next) [
  | true ↦ (0x10000 + (unit - 0xd800) * 0x400 + (next - 0xdc00)) ∷ code_points units
  | false ↦ unit ∷ code_points (next ∷ units)
]

-- The bytes of one point as TextEncoder writes them: a lone surrogate becomes U+FFFD.
unfoldable pub encode_point : ℕ → List ℕ
encode_point code =
    if ltb code 0x80
    then code ∷ []
    else if ltb code 0x800
    then (0xc0 + code / 64) ∷ (0x80 + code % 64) ∷ []
    else if is_lead code
    then 0xef ∷ 0xbf ∷ 0xbd ∷ []
    else if is_trail code
    then 0xef ∷ 0xbf ∷ 0xbd ∷ []
    else if ltb code 0x10000
    then (0xe0 + code / 4096) ∷ (0x80 + code / 64 % 64) ∷ (0x80 + code % 64) ∷ []
    else (0xf0 + code / 262144)
      ∷ (0x80 + code / 4096 % 64)
      ∷ (0x80 + code / 64 % 64)
      ∷ (0x80 + code % 64)
      ∷ []

unfoldable pub encode_points : List ℕ → List ℕ
encode_points [] = []
encode_points (code ∷ codes) = encode_point code ++ encode_points codes

-- `new TextEncoder().encode(text)`
abbrev pub encode : Text → List ℕ
encode text = encode_points (code_points text)

abbrev pub width : ℕ → ℕ
width code =
    if ltb code 0x80 then 1 else if ltb code 0x800 then 2 else if ltb code 0x10000 then 3 else 4

unfoldable pub size_loop : List ℕ → ℕ → ℕ → ℕ
size_loop [] size maximum = size
size_loop (code ∷ codes) size maximum =
    let rest = size_loop codes (size + width code) maximum in
    if ltb maximum (size + width code) then size + width code else rest

unfoldable pub utf8_size : Text → ℕ → ℕ
utf8_size text maximum =
    if ltb maximum (length text) then maximum + 1 else size_loop (code_points text) 0 maximum
