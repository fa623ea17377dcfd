-- ===== src/Limits/Tests.antt =====
-- The theorems about limits and paths at concrete inputs.
use capnpc_wasm.Common.{◌≤◌, ◌≡◌, ◌↔◌, refl, true, false, List, [], ◌∷◌, All, length}
use capnpc_wasm.Common.Number.{finite}
use capnpc_wasm.Common.Result.{ok}
use capnpc_wasm.Limits.Utf8.{
  Text, code_points, encode_point, encode_points, encode, size_loop, utf8_size,
}
use capnpc_wasm.Limits.Utf8.Size.{Counted, utf8_size-encode}
use capnpc_wasm.Limits.Paths.{text, check_path, split, is_bad}
use capnpc_wasm.Limits.Paths.Canonical.{IsCanonical, check_path_iff}
use capnpc_wasm.Limits.Resolve.{
  LimitName, memory_pages, path_bytes, Key, limit, LimitValue, undefined, number, entries,
  ResourceLimits, default_limits, write_limit, resolve_entry, resolve_loop, resolve_limits,
}
use capnpc_wasm.Limits.Resolve.Resolved.{given, is_entry, resolve_limits-given}

-- "a", U+1F600 and a lone surrogate.
abbrev mixed : Text
mixed = 0x61 ∷ 0xd83d ∷ 0xde00 ∷ 0xd83d ∷ []

encoded_mixed : encode mixed ≡ 0x61 ∷ 0xf0 ∷ 0x9f ∷ 0x98 ∷ 0x80 ∷ 0xef ∷ 0xbf ∷ 0xbd ∷ []
unfolding code_points encode_points encode_point
encoded_mixed = refl

size_of_mixed : utf8_size mixed 100 ≡ 8
unfolding utf8_size size_loop code_points
size_of_mixed = refl

utf8_size-encode_example : Counted 100 (length (encode mixed)) (utf8_size mixed 100)
utf8_size-encode_example = utf8_size-encode mixed 100

-- "a/b.c"
abbrev path : Text
path = 0x61 ∷ 0x2f ∷ 0x62 ∷ 0x2e ∷ 0x63 ∷ []

accepted_path : check_path (text path) 10 ≡ ok path
unfolding check_path utf8_size size_loop code_points split is_bad
accepted_path = refl

check_path_iff_example :
    (check_path (text path) 10 ≡ ok path) ↔ (IsCanonical path × (length (encode path) ≤ 10))
check_path_iff_example = check_path_iff path 10

abbrev two_limits : List (Key × LimitValue)
two_limits = (limit memory_pages, number (finite false 16 1)) ∷ (limit path_bytes, undefined) ∷ []

abbrev resolved : ResourceLimits
unfolding write_limit
resolved = write_limit memory_pages 8 default_limits

resolved_two : resolve_limits (entries two_limits) ≡ ok resolved
unfolding resolve_limits resolve_loop resolve_entry write_limit
resolved_two = refl

resolve_limits-given_example :
    All (λ entry. is_entry entry ≡ true) two_limits
    × ((name : LimitName) → resolved name ≡ given name two_limits (default_limits name))
    × (1 ≤ resolved memory_pages)
    × (resolved memory_pages ≤ 65536)
resolve_limits-given_example = resolve_limits-given two_limits resolved resolved_two
