-- ===== src/Limits/Request.antt =====
-- `validateGenerators`, `validateCompile` and `validateGenerate` of sdk/typescript/limits.ts: every
-- check of a request before anything is copied or run.
use capnpc_wasm.Common.{
  ℕ, zero, suc, ◌+◌, ◌-◌, Bool, true, false, not, ◌&&◌, ◌||◌, String, List, [], ◌∷◌, ◌++◌, Option,
  none, some, map, ltb, ◌==◌, if◌then◌else◌, length, take,
}
use capnpc_wasm.Common.Result.{
  Error, Result, ok, err, type_error, type_error_text, ◌>>=◌, throw_if, ◌>>◌,
}
use capnpc_wasm.Limits.Utf8.{Text, utf8_size}
use capnpc_wasm.Limits.Paths.{PathValue, text, no_text, any, split, check_path}
use capnpc_wasm.Limits.Mounts.{
  same, has, has_duplicate, Contents, text_contents, bytes_contents, other_contents, Files, Seen,
  capture,
}
use capnpc_wasm.Limits.Resolve.{
  ResourceLimits, workspace_entries, workspace_bytes, path_bytes, request_bytes,
}
pub mod Compile
pub mod Generators
mod Tests

pub data FilesValue : Type 0 where
  files : Files → FilesValue
  no_object : FilesValue

pub data PathsValue : Type 0 where
  paths : List PathValue → PathsValue
  no_array : PathsValue

-- An element of `generators`: a string, or another value, told apart by a number.
pub data Target : Type 0 where
  named : Text → Target
  no_string : ℕ → Target

pub data TargetsValue : Type 0 where
  targets : List Target → TargetsValue
  no_array : TargetsValue

abbrev pub same_target : Target → Target → Bool
same_target (named a) (named b) = same a b
same_target (no_string a) (no_string b) = a == b
same_target _ _ = false

unfoldable pub has_duplicate_target : List Target → Bool
has_duplicate_target [] = false
has_duplicate_target (target ∷ rest) = any (same_target target) rest || has_duplicate_target rest

unfoldable pub validate_targets : List Target → List Text → Result (List Text)
validate_targets [] supplied = ok []
validate_targets (no_string value ∷ rest) supplied = err (type_error "generator was not supplied")
validate_targets (named target ∷ rest) supplied = do
  throw_if (not (has supplied target)) (type_error_text "generator was not supplied" target)
  others ← validate_targets rest supplied
  ok (target ∷ others)

unfoldable pub validate_generators : TargetsValue → List Text → Result (List Text)
validate_generators no_array supplied =
    err (type_error "generators must be an array of language names")
validate_generators (targets requested) supplied = do
  throw_if (ltb 4 (length requested)) (type_error "too many generators")
  throw_if (has_duplicate_target requested) (type_error "duplicate generators")
  validate_targets requested supplied

-- `source_prefix` is none where the property is undefined or null.
pub record CompileRequest : Type 0 where
  pub files : FilesValue
  pub include_files : Option FilesValue
  pub entrypoints : PathsValue
  pub import_paths : Option PathsValue
  pub source_prefix : Option PathValue
  pub generators : TargetsValue

pub record CompileJob : Type 0 where
  pub sources : Files
  pub annotations : Files
  pub entrypoints : List Text
  pub import_paths : List Text
  pub source_prefix : Text
  pub generators : List Text

-- `if (path !== "") checkPath(path, limits)`
abbrev pub check_optional : PathValue → ℕ → Result Text
check_optional (text []) maximum = ok []
check_optional path maximum = check_path path maximum

-- One check for each path, in order; the strings that were accepted.
abbrev pub check_all : (PathValue → Result Text) → List PathValue → Result (List Text)
check_all check [] = ok []
check_all check (path ∷ others) = do
  first ← check path
  rest ← check_all check others
  ok (first ∷ rest)

abbrev pub is_directory : Seen → Text → Bool
is_directory seen path = has seen.nodes path && not (has seen.names path)

-- `for (const path of paths)` with one check for each.
abbrev pub require_all : (Text → Bool) → String → List Text → Result (Unit {0})
require_all good message [] = ok tt
require_all good message (path ∷ rest) =
    throw_if (not (good path)) (type_error_text message path) >> require_all good message rest

abbrev pub files_of : FilesValue → String → Result Files
files_of no_object message = err (type_error message)
files_of (files entries) message = ok entries

abbrev pub paths_of : PathsValue → String → Result (List PathValue)
paths_of no_array message = err (type_error message)
paths_of (paths list) message = ok list

abbrev pub or_default : {A B : Type 0} → Option A → B → (A → Result B) → Result B
or_default none other next = ok other
or_default (some a) other next = next a

-- The parts of a request that are checked before its files.
unfoldable pub validate_paths : CompileRequest → ResourceLimits → List Text → Result CompileJob
validate_paths input limits supplied = do
  sources ← files_of input.files "files must be an object mapping paths to contents"
  annotations ←
      or_default input.include_files []
        λ value. files_of value "includeFiles must be an object mapping paths to contents"
  points ← paths_of input.entrypoints "entrypoints must be an array of paths"
  roots ←
      or_default input.import_paths []
        λ value. paths_of value "importPaths must be an array of directory paths"
  generators ← validate_generators input.generators supplied
  throw_if (ltb (limits workspace_entries) (length roots))
      (type_error "import root count exceeds workspaceEntries limit")
  source_prefix ←
      or_default input.source_prefix [] λ value. check_optional value (limits path_bytes)
  import_paths ← check_all (λ path. check_optional path (limits path_bytes)) roots
  throw_if (has_duplicate import_paths) (type_error "duplicate importPaths")
  throw_if (length points == 0) (type_error "at least one entrypoint is required")
  throw_if (ltb (limits workspace_entries) (length points))
      (type_error "entrypoint count exceeds workspaceEntries limit")
  entrypoints ← check_all (λ path. check_path path (limits path_bytes)) points
  throw_if (has_duplicate entrypoints) (type_error "duplicate entrypoints")
  ok (record {
    sources = sources;
    annotations = annotations;
    entrypoints = entrypoints;
    import_paths = import_paths;
    source_prefix = source_prefix;
    generators = generators;
  })

unfoldable pub validate_files : CompileJob → ResourceLimits → Result CompileJob
validate_files job limits = do
  first ← capture limits job.sources 0 0
  second ← capture limits job.annotations first.entries first.bytes
  points ← require_all (has first.names) "entrypoint is not in files" job.entrypoints
  roots ←
      require_all (λ path. same path [] || is_directory first path)
        "importPath is not a directory in files" job.import_paths
  throw_if (not (same job.source_prefix []) && not (is_directory first job.source_prefix))
      (type_error_text "sourcePrefix is not a directory in files" job.source_prefix)
  ok job

-- A request that is no object is none.
unfoldable pub validate_compile :
    Option CompileRequest → ResourceLimits → List Text → Result CompileJob
validate_compile none limits supplied = err (type_error "compile request must be an object")
validate_compile (some input) limits supplied =
    validate_paths input limits supplied >>= λ job. validate_files job limits

pub record GenerationRequest : Type 0 where
  pub generators : TargetsValue
  pub request : Contents

pub record GenerateJob : Type 0 where
  pub request : List ℕ
  pub generators : List Text

abbrev pub request_bytes_of : Contents → List ℕ
request_bytes_of (bytes_contents bytes) = bytes
request_bytes_of _ = []

unfoldable pub validate_generate :
    Option GenerationRequest → ResourceLimits → List Text → Result GenerateJob
validate_generate none limits supplied = err (type_error "generation request must be an object")
validate_generate (some input) limits supplied = do
  generators ← validate_generators input.generators supplied
  throw_if (length generators == 0) (type_error "at least one generator is required")
  let request = request_bytes_of input.request
  throw_if (length request == 0)
      (type_error "request must contain unpacked CodeGeneratorRequest bytes")
  throw_if (ltb (limits request_bytes) (length request))
      (type_error "request exceeds requestBytes limit")
  ok (record { request = request; generators = generators })
