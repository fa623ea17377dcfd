-- ===== src/ResourceFs/Entries/Created.antt =====
-- The budget of entries of `boundFilesystem` in sdk/typescript/resource-fs.ts.
use capnpc_wasm.Common.{ℕ, ◌+◌, ◌≤◌, ◌<◌, ◌≡◌, ◌⊎◌, max, List, [], ◌∷◌}
use capnpc_wasm.Common.Result.{Result, ok}
use capnpc_wasm.ResourceFs.Entries.{Filesystem, Answer, added}
use capnpc_wasm.ResourceFs.Entries.Store.{IsBounded}

-- What an answer adds to the entries.
abbrev one_if_added : Answer → ℕ
one_if_added added = 1
one_if_added _ = 0

abbrev pub count_added : List Answer → ℕ
count_added [] = 0
count_added (answer ∷ answers) = one_if_added answer + count_added answers

-- An event comes to an answer: an entry that is added is counted, within the maximum, and one that is
-- refused has brought the count above it. What is reached stays retained.
record IsCounted (maximum root : ℕ) (before : Filesystem) (result : Result (Answer × Filesystem))
    : Type 0 where
  answer : Answer
  after : Filesystem
  returns : result ≡ ok (answer, after)
  counted :
      ((after.entries ≡ before.entries + one_if_added answer)
        × (after.entries ≤ max before.entries maximum))
      ⊎ ((one_if_added answer ≡ 0) × (maximum < after.entries))
  bounded : IsBounded root after
