-- ===== src/Limits/Request/Tests.antt =====
-- The theorems about requests at concrete inputs.
use capnpc_wasm.Common.{◌≤◌, ◌≡◌, ◌↔◌, refl, true, false, [], ◌∷◌, none, some, All, length, map}
use capnpc_wasm.Common.Result.{ok}
use capnpc_wasm.Limits.Utf8.{Text, code_points, size_loop, utf8_size}
use capnpc_wasm.Limits.Paths.{text, check_path, split, is_bad}
use capnpc_wasm.Limits.Paths.Split.{join}
use capnpc_wasm.Limits.Resolve.{default_limits}
use capnpc_wasm.Limits.Mounts.{
  has, has_duplicate, text_contents, bytes_contents, add_files, add_file, add_contents, add_nodes,
  capture, check_collisions, directories, nodes_from, path_nodes,
}
use capnpc_wasm.Limits.Request.{
  CompileRequest, CompileJob, files, paths, named, targets, has_duplicate_target, validate_targets,
  validate_generators, validate_paths, validate_files, validate_compile,
}
use capnpc_wasm.Limits.Request.Compile.{IsWithin, validate_compile-IsWithin}
use capnpc_wasm.Limits.Request.Generators.{validate_generators_iff}

-- "a/b" and "c"
abbrev nested : Text
nested = 0x61 ∷ 0x2f ∷ 0x62 ∷ []

abbrev flat : Text
flat = 0x63 ∷ []

abbrev input : CompileRequest
input = record {
  files =
      files ((nested, text_contents (0x78 ∷ 0xe9 ∷ [])) ∷ (flat, bytes_contents (1 ∷ 2 ∷ [])) ∷ []);
  include_files = none;
  entrypoints = paths (text nested ∷ []);
  import_paths = some (paths (text (0x61 ∷ []) ∷ []));
  source_prefix = none;
  generators = targets (named flat ∷ []);
}

abbrev job : CompileJob
job = record {
  sources = (nested, text_contents (0x78 ∷ 0xe9 ∷ [])) ∷ (flat, bytes_contents (1 ∷ 2 ∷ [])) ∷ [];
  annotations = [];
  entrypoints = nested ∷ [];
  import_paths = (0x61 ∷ []) ∷ [];
  source_prefix = [];
  generators = flat ∷ [];
}

accepted_input : validate_compile (some input) default_limits (flat ∷ []) ≡ ok job
unfolding validate_compile validate_paths validate_generators has_duplicate_target validate_targets
    check_path utf8_size size_loop code_points split is_bad has_duplicate validate_files capture
    add_files add_file add_nodes path_nodes join add_contents check_collisions directories
    nodes_from
accepted_input = refl

validate_compile-IsWithin_example : IsWithin default_limits job
validate_compile-IsWithin_example =
    validate_compile-IsWithin input default_limits (flat ∷ []) job accepted_input

validate_generators_iff_example :
    (validate_generators (targets (named flat ∷ [])) (nested ∷ flat ∷ []) ≡ ok (flat ∷ [])) ↔ (
      (named flat ∷ [] ≡ map named (flat ∷ []))
      × (length (flat ∷ []) ≤ 4)
      × (has_duplicate (flat ∷ []) ≡ false)
      × All (λ t. has (nested ∷ flat ∷ []) t ≡ true) (flat ∷ []))
validate_generators_iff_example =
    validate_generators_iff (named flat ∷ []) (nested ∷ flat ∷ []) (flat ∷ [])
