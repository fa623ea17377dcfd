-- ===== src/ResourceFs/Entries/Tests.antt =====
-- `boundFilesystem` of sdk/typescript/resource-fs.ts on concrete directories.
use capnpc_wasm.Common.{◌≡◌, refl, List, [], ◌∷◌}
use capnpc_wasm.Common.Result.{ok, ◌>>=◌}
use capnpc_wasm.ResourceFs.Budget.{attach as attach_file}
use capnpc_wasm.ResourceFs.Entries.{
  file, directory, Filesystem, has_name, put, remove, attach, added, replaced, removed, refused,
  ignored, set_entry, Event, made_file, made_directory, set_name, delete_name, happen, happen_all,
  bound_filesystem,
}

-- A root with a directory and a file in it.
abbrev tree : Filesystem
tree = record {
  inodes = directory ((97 ∷ [], 1) ∷ (98 ∷ [], 2) ∷ []) ∷ directory [] ∷ file 10 ∷ [];
  retained = [];
  entries = 0;
  budget = record { maximum = 100; limit = "outputBytes"; used = 0; files = []; descriptors = [] };
}

-- The directory that is made and linked is attached, and so are the names that are set in it.
abbrev events : List Event
events =
    made_directory
    ∷ made_file 0
    ∷ set_name 1 (99 ∷ []) 3
    ∷ delete_name 1 (99 ∷ [])
    ∷ set_name 1 (99 ∷ []) 3
    ∷ set_name 1 (99 ∷ []) 3
    ∷ set_name 3 (100 ∷ []) 4
    ∷ []

-- The third new name is one too many, though only one of the others is left.
answers_two :
    (bound_filesystem 0 tree >>= λ started. happen_all 2 events started >>= λ last. ok last.0)
    ≡ ok (ignored ∷ ignored ∷ added ∷ removed ∷ added ∷ replaced ∷ refused ∷ [])
unfolding bound_filesystem happen_all happen set_entry attach attach_file has_name put remove
answers_two = refl
