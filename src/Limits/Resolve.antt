-- ===== src/Limits/Resolve.antt =====
-- `resolveLimits` of sdk/typescript/limits.ts and `defaultLimits` of sdk/typescript/types.ts.
use capnpc_wasm.Common.{
  ℕ, ◌*◌, Bool, true, false, not, ◌||◌, String, List, [], ◌∷◌, ltb, ◌==◌, if◌then◌else◌,
}
use capnpc_wasm.Common.Number.{Number, is_safe_integer, lt_zero, whole_part}
use capnpc_wasm.Common.Result.{
  Error, Result, ok, err, type_error, type_error_named, ◌>>=◌, throw_if, ◌>>◌,
}
pub mod Resolved

-- The keys of a ResourceLimits object.
pub data LimitName : Type 0 where
  memory_pages workspace_bytes workspace_entries path_bytes request_bytes : LimitName
  output_bytes output_entries stdout_bytes stderr_bytes : LimitName

-- The object: the value at each key.
abbrev pub ResourceLimits : Type 0
ResourceLimits = LimitName → ℕ

abbrev pub default_limits : ResourceLimits
default_limits memory_pages = 4096
default_limits workspace_bytes = 64 * 1024 * 1024
default_limits workspace_entries = 4096
default_limits path_bytes = 4096
default_limits request_bytes = 64 * 1024 * 1024
default_limits output_bytes = 64 * 1024 * 1024
default_limits output_entries = 4096
default_limits stdout_bytes = 64 * 1024 * 1024
default_limits stderr_bytes = 1024 * 1024

abbrev pub name_text : LimitName → String
name_text memory_pages = "memoryPages"
name_text workspace_bytes = "workspaceBytes"
name_text workspace_entries = "workspaceEntries"
name_text path_bytes = "pathBytes"
name_text request_bytes = "requestBytes"
name_text output_bytes = "outputBytes"
name_text output_entries = "outputEntries"
name_text stdout_bytes = "stdoutBytes"
name_text stderr_bytes = "stderrBytes"

abbrev pub index : LimitName → ℕ
index memory_pages = 0
index workspace_bytes = 1
index workspace_entries = 2
index path_bytes = 3
index request_bytes = 4
index output_bytes = 5
index output_entries = 6
index stdout_bytes = 7
index stderr_bytes = 8

-- A key of the supplied object: a limit's name or another name.
pub data Key : Type 0 where
  limit : LimitName → Key
  other_key : String → Key

abbrev pub key_text : Key → String
key_text (limit name) = name_text name
key_text (other_key name) = name

pub data LimitValue : Type 0 where
  undefined no_number : LimitValue
  number : Number → LimitValue

-- `options.limits`: absent, an object with its entries, or a value that is no object.
pub data LimitsValue : Type 0 where
  absent no_object : LimitsValue
  entries : List (Key × LimitValue) → LimitsValue

-- `limits[name] = value`
unfoldable pub write_limit : LimitName → ℕ → ResourceLimits → ResourceLimits
write_limit name value limits other = if index name == index other then value else limits other

-- `!Number.isSafeInteger(value) || value < 0`
abbrev pub is_invalid : LimitValue → Bool
is_invalid (number x) = not (is_safe_integer x) || lt_zero x
is_invalid _ = true

abbrev pub limit_value : LimitValue → ℕ
limit_value (number x) = whole_part x
limit_value _ = 0

-- One entry of the loop.
unfoldable pub resolve_entry : Key → LimitValue → ResourceLimits → Result ResourceLimits
resolve_entry key undefined limits = ok limits
resolve_entry (other_key name) value limits = err (type_error_named "invalid resource limit" name)
resolve_entry (limit name) value limits =
    throw_if (is_invalid value) (type_error_named "invalid resource limit" (name_text name))
    >> ok (write_limit name (limit_value value) limits)

unfoldable pub resolve_loop : List (Key × LimitValue) → ResourceLimits → Result ResourceLimits
resolve_loop [] limits = ok limits
resolve_loop (entry ∷ rest) limits = resolve_entry entry.0 entry.1 limits >>= resolve_loop rest

abbrev pub supplied : LimitsValue → Result (List (Key × LimitValue))
supplied absent = ok []
supplied no_object = err (type_error "limits must be an object of resource limits")
supplied (entries list) = ok list

unfoldable pub resolve_limits : LimitsValue → Result ResourceLimits
resolve_limits value = do
  list ← supplied value
  limits ← resolve_loop list default_limits
  throw_if (ltb (limits memory_pages) 1 || ltb 65536 (limits memory_pages))
      (type_error "memoryPages must be between 1 and 65536")
  ok limits
