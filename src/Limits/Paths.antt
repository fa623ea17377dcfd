-- ===== src/Limits/Paths.antt =====
-- `checkPath` of sdk/typescript/limits.ts.
use capnpc_wasm.Common.{
  ℕ, Bool, true, false, not, ◌&&◌, ◌||◌, List, [], ◌∷◌, ◌++◌, ltb, ◌==◌, if◌then◌else◌, length,
}
use capnpc_wasm.Common.Result.{
  Error, Result, ok, err, type_error, type_error_text, ◌>>=◌, throw_if, ◌>>◌,
}
use capnpc_wasm.Limits.Utf8.{Text, code_points, is_lead, is_trail, utf8_size}
pub mod Split
pub mod Canonical

-- A value of type `unknown` where a path is wanted.
pub data PathValue : Type 0 where
  text : Text → PathValue
  no_text : PathValue

abbrev pub any {ℓ} : {A : Type ℓ} → (A → Bool) → List A → Bool
any p [] = false
any p (x ∷ xs) = p x || any p xs

abbrev pub slash : ℕ
slash = 0x2f

abbrev pub extend_first : ℕ → List Text → List Text
extend_first unit [] = (unit ∷ []) ∷ []
extend_first unit (part ∷ parts) = (unit ∷ part) ∷ parts

-- `path.split("/")`
unfoldable pub split : Text → List Text
split [] = [] ∷ []
split (unit ∷ units) =
    let parts = split units in if unit == slash then [] ∷ parts else extend_first unit parts

-- `path.isWellFormed()`
abbrev pub is_lone : ℕ → Bool
is_lone code = is_lead code || is_trail code

abbrev pub is_well_formed : Text → Bool
is_well_formed path = not (any is_lone (code_points path))

-- `/[\\\0]/.test(path)`
abbrev pub is_forbidden : ℕ → Bool
is_forbidden unit = unit == 0x5c || unit == 0

-- `!part || part === "." || part === ".."`
unfoldable pub is_bad : Text → Bool
is_bad [] = true
is_bad (a ∷ []) = a == 0x2e
is_bad (a ∷ b ∷ []) = a == 0x2e && b == 0x2e
is_bad (a ∷ b ∷ c ∷ part) = false

unfoldable pub check_path : PathValue → ℕ → Result Text
check_path no_text path_bytes = err (type_error "expected a string path")
check_path (text path) path_bytes =
    throw_if (ltb path_bytes (utf8_size path path_bytes))
      (type_error "path exceeds pathBytes limit")
    >> throw_if (any is_forbidden path || not (is_well_formed path) || any is_bad (split path))
        (type_error_text "expected a canonical relative POSIX path" path)
    >> ok path
