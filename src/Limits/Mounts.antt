-- ===== src/Limits/Mounts.antt =====
-- The loop over the files of a request in `validateCompile` of sdk/typescript/limits.ts: the paths,
-- the nodes and the bytes of one mount after the other.
use capnpc_wasm.Common.{
  ℕ, zero, suc, ◌+◌, ◌-◌, Bool, true, false, not, ◌&&◌, ◌||◌, List, [], ◌∷◌, ◌++◌, Option, none,
  some, map, ltb, ◌==◌, if◌then◌else◌, length, take,
}
use capnpc_wasm.Common.Result.{
  Error, Result, ok, err, type_error, type_error_text, ◌>>=◌, throw_if, ◌>>◌,
}
use capnpc_wasm.Limits.Utf8.{Text, utf8_size}
use capnpc_wasm.Limits.Paths.{text, any, split, check_path}
use capnpc_wasm.Limits.Paths.Split.{join}
use capnpc_wasm.Limits.Resolve.{ResourceLimits, workspace_entries, workspace_bytes, path_bytes}
pub mod Capture
pub mod Accepted

abbrev pub same : Text → Text → Bool
same [] [] = true
same (a ∷ left) (b ∷ right) = a == b && same left right
same _ _ = false

-- A Set of strings is the list of its elements.
abbrev pub has : List Text → Text → Bool
has set path = any (same path) set

-- `new Set(paths).size !== paths.length`
unfoldable pub has_duplicate : List Text → Bool
has_duplicate [] = false
has_duplicate (path ∷ paths) = has paths path || has_duplicate paths

-- The contents of a file: a string, the bytes of a Uint8Array, or a value that is neither.
pub data Contents : Type 0 where
  text_contents : Text → Contents
  bytes_contents : List ℕ → Contents
  other_contents : Contents

-- The own enumerable properties of an object, in the order of enumeration.
abbrev pub Files : Type 0
Files = List (Text × Contents)

-- `parts.slice(0, i).join("/")` for `count` values of i.
unfoldable pub nodes_from : ℕ → ℕ → List Text → List Text
nodes_from i zero parts = []
nodes_from i (suc count) parts = join (take i parts) ∷ nodes_from (suc i) count parts

-- The path and the directories above it.
unfoldable pub path_nodes : Text → List Text
unfolding nodes_from
path_nodes path = let parts = split path in nodes_from 1 (length parts) parts

unfoldable pub directories : Text → List Text
unfolding nodes_from
directories path = let parts = split path in nodes_from 1 (length parts - 1) parts

-- What a mount's loop keeps: its names and nodes, and the counts that both mounts share.
pub record Seen : Type 0 where
  pub names : List Text
  pub nodes : List Text
  pub entries : ℕ
  pub bytes : ℕ

unfoldable pub add_nodes : ℕ → List Text → Seen → Result Seen
add_nodes maximum [] seen = ok seen
add_nodes maximum (node ∷ rest) seen =
    let old = has seen.nodes node in
    throw_if (not old && ltb maximum (seen.entries + 1))
      (type_error "workspace exceeds workspaceEntries limit")
    >> add_nodes maximum rest (record seen {
      nodes = if old then seen.nodes else node ∷ seen.nodes;
      entries = if old then seen.entries else seen.entries + 1;
    })

-- The bytes of the contents, up to what is left of the budget.
abbrev pub contents_size : Contents → ℕ → ℕ
contents_size (text_contents contents) budget = utf8_size contents budget
contents_size (bytes_contents contents) budget = length contents
contents_size other_contents budget = 0

abbrev pub is_other : Contents → Bool
is_other other_contents = true
is_other _ = false

-- The end of the loop's body: the contents are checked and counted.
unfoldable pub add_contents : ResourceLimits → Text → Contents → Seen → Result Seen
add_contents limits path contents seen = do
  throw_if (is_other contents) (type_error_text "expected text or bytes for" path)
  let bytes = seen.bytes + contents_size contents (limits workspace_bytes - seen.bytes)
  throw_if (ltb (limits workspace_bytes) bytes)
      (type_error "workspace exceeds workspaceBytes limit")
  ok (record seen { bytes = bytes })

-- The body of the loop over `files`.
unfoldable pub add_file : ResourceLimits → Text → Contents → Seen → Result Seen
add_file limits path contents seen = do
  checked ← check_path (text path) (limits path_bytes)
  counted ←
      add_nodes (limits workspace_entries) (path_nodes checked)
        (record seen { names = checked ∷ seen.names })
  add_contents limits path contents counted

unfoldable pub add_files : ResourceLimits → Files → Seen → Result Seen
add_files limits [] seen = ok seen
add_files limits (file ∷ rest) seen = add_file limits file.0 file.1 seen >>= add_files limits rest

-- `for (const path of names)`: no file lies below a file. The names come in the order that they were
-- added, the last in front of the list.
unfoldable pub check_collisions : List Text → List Text → Result (Unit {0})
check_collisions names [] = ok tt
check_collisions names (path ∷ rest) =
    check_collisions names rest
    >> throw_if (any (has names) (directories path))
        (type_error_text "file/directory collision" path)

-- One mount, with names and nodes of its own.
unfoldable pub capture : ResourceLimits → Files → ℕ → ℕ → Result Seen
capture limits mount entries bytes = do
  seen ←
      add_files limits mount (record { names = []; nodes = []; entries = entries; bytes = bytes })
  collided ← check_collisions seen.names seen.names
  ok seen
