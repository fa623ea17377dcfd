-- ===== src/ResourceFs/Entries.antt =====
-- `boundFilesystem` of sdk/typescript/resource-fs.ts: the inodes that it retains, and the budget of
-- entries. An inode is its place in a store, and a Map of a directory is the list of its entries.
pub mod Closed
pub mod Store
pub mod Created
mod Tests
use capnpc_wasm.Common.{
  ℕ, zero, suc, ◌+◌, Bool, true, false, ◌&&◌, List, [], ◌∷◌, ◌++◌, ltb, ◌==◌, if◌then◌else◌, get_or,
  set, length, map,
}
use capnpc_wasm.Common.Result.{Result, ok, err, stuck, ◌>>=◌}
use capnpc_wasm.ResourceFs.Budget.{Budget, attach as attach_file}

-- A file, by the length of its data; or a directory, by its names and the inodes that they lead to.
pub data Inode : Type 0 where
  file : ℕ → Inode
  directory : List (List ℕ × ℕ) → Inode

-- The inodes, which of them are in `retained`, and `entries` and `budget`.
pub record Filesystem : Type 0 where
  pub inodes : List Inode
  pub retained : List Bool
  pub entries : ℕ
  pub budget : Budget

abbrev pub same_name : List ℕ → List ℕ → Bool
same_name [] [] = true
same_name (a ∷ more) (b ∷ bs) = a == b && same_name more bs
same_name _ _ = false

-- `contents.has(name)`
unfoldable pub has_name : List (List ℕ × ℕ) → List ℕ → Bool
has_name [] name = false
has_name (entry ∷ rest) name = if same_name entry.0 name then true else has_name rest name

-- `set(name, child)` and `delete(name)` of the Map.
unfoldable pub put : List ℕ → ℕ → List (List ℕ × ℕ) → List (List ℕ × ℕ)
put name child [] = (name, child) ∷ []
put name child (entry ∷ rest) =
    if same_name entry.0 name then (name, child) ∷ rest else entry ∷ put name child rest

unfoldable pub remove : List ℕ → List (List ℕ × ℕ) → List (List ℕ × ℕ)
remove name [] = []
remove name (entry ∷ rest) = if same_name entry.0 name then rest else entry ∷ remove name rest

-- A place that is not in the store is never reached by the program: it has nothing to attach.
abbrev pub is_retained : Filesystem → ℕ → Bool
is_retained fs id = get_or fs.retained id true

abbrev pub for_each : (ℕ → Filesystem → Result Filesystem) → List ℕ → Filesystem → Result Filesystem
for_each visit [] fs = ok fs
for_each visit (id ∷ ids) fs = visit id fs >>= for_each visit ids

abbrev pub children : List (List ℕ × ℕ) → List ℕ
children [] = []
children (entry ∷ rest) = entry.1 ∷ children rest

abbrev pub visit : (ℕ → Filesystem → Result Filesystem) → Inode → Filesystem → Result Filesystem
visit attach (file size) fs = ok (record fs { budget = attach_file size fs.budget })
visit attach (directory contents) fs = for_each attach (children contents) fs

-- `attach`, on fuel: each round retains an inode.
unfoldable pub attach : ℕ → ℕ → Filesystem → Result Filesystem
attach zero id fs = stuck
attach (suc fuel) id fs = elim (is_retained fs id) [
  | true ↦ ok fs
  | false ↦
      visit (attach fuel) (get_or fs.inodes id (file 0))
        (record fs { retained = set fs.retained id true })
]

abbrev pub enough : Filesystem → ℕ
enough fs = suc (length fs.retained)

-- What a change of a directory comes to.
pub data Answer : Type 0 where
  added replaced removed refused uncounted ignored : Answer

abbrev pub assign : ℕ → Inode → Filesystem → Filesystem
assign id inode fs = record fs { inodes = set fs.inodes id inode }

abbrev pub contents_of : Inode → List (List ℕ × ℕ)
contents_of (file size) = []
contents_of (directory contents) = contents

abbrev pub contents_at : Filesystem → ℕ → List (List ℕ × ℕ)
contents_at fs dir = contents_of (get_or fs.inodes dir (file 0))

-- `attach(child); return set(name, child);`
abbrev pub linked : Answer → ℕ → List ℕ → ℕ → Filesystem → Result (Answer × Filesystem)
linked answer dir name child fs = attach (enough fs) child fs >>= λ fs'.
    ok (answer, assign dir (directory (put name child (contents_at fs' dir))) fs')

-- `contents.set` of a directory that has been attached; `refused` has thrown the LimitError.
unfoldable pub set_entry : ℕ → ℕ → List ℕ → ℕ → Filesystem → Result (Answer × Filesystem)
set_entry maximum dir name child fs =
    if has_name (contents_at fs dir) name
    then linked replaced dir name child fs
    else if ltb maximum (fs.entries + 1)
    then ok (refused, record fs { entries = fs.entries + 1 })
    else linked added dir name child (record fs { entries = fs.entries + 1 })

-- What the shim does: it makes an inode, an empty one where it is a directory, or it sets or deletes a
-- name of a directory.
pub data Event : Type 0 where
  made_file : ℕ → Event
  made_directory : Event
  set_name : ℕ → List ℕ → ℕ → Event
  delete_name : ℕ → List ℕ → Event

abbrev pub make : Inode → Filesystem → Filesystem
make inode fs = record fs {
  inodes = fs.inodes ++ (inode ∷ []);
  retained = fs.retained ++ (false ∷ []);
}

-- The `set` of a Map: that of `attach`, or the Map's own where the directory has not been attached.
abbrev pub set_in : ℕ → ℕ → List ℕ → ℕ → Filesystem → Result (Answer × Filesystem)
set_in maximum dir name child fs =
    if is_retained fs dir
    then set_entry maximum dir name child fs
    else ok (uncounted, assign dir (directory (put name child (contents_at fs dir))) fs)

-- What is no directory has no names, and what is not in the store is no child.
abbrev pub in_directory :
    Inode → Filesystem → Result (Answer × Filesystem) → Result (Answer × Filesystem)
in_directory (file size) fs result = ok (ignored, fs)
in_directory (directory contents) fs result = result

unfoldable pub happen : ℕ → Event → Filesystem → Result (Answer × Filesystem)
happen maximum (made_file size) fs = ok (ignored, make (file size) fs)
happen maximum made_directory fs = ok (ignored, make (directory []) fs)
happen maximum (set_name dir name child) fs =
    if ltb child (length fs.inodes)
    then in_directory (get_or fs.inodes dir (file 0)) fs (set_in maximum dir name child fs)
    else ok (ignored, fs)
happen maximum (delete_name dir name) fs =
    in_directory (get_or fs.inodes dir (file 0)) fs
      (ok (removed, assign dir (directory (remove name (contents_at fs dir))) fs))

-- One event after the other, with what each came to.
unfoldable pub happen_all : ℕ → List Event → Filesystem → Result (List Answer × Filesystem)
happen_all maximum [] fs = ok ([], fs)
happen_all maximum (event ∷ events) fs = happen maximum event fs >>= λ first.
    happen_all maximum events first.1 >>= λ rest. ok (first.0 ∷ rest.0, rest.1)

-- `boundFilesystem(root, limits)`: the entries and the retained inodes start from none.
unfoldable pub bound_filesystem : ℕ → Filesystem → Result Filesystem
bound_filesystem root fs =
    let fresh : Filesystem = record fs { entries = 0; retained = map (λ inode. false) fs.inodes } in
    attach (enough fresh) root fresh
