-- ===== src/ResourceFs/Tests.antt =====
-- A run of a write, and the theorem about it at a concrete input.
use capnpc_wasm.Common.{
  ℕ, ◌+◌, ◌*◌, ◌≤◌, ◌<◌, ◌≡◌, ◌⊎◌, ◌≢◌, refl, Option, none, some, List, [], ◌∷◌, ◌++◌, length,
  slice,
}
use capnpc_wasm.Common.Result.{ok, err, limit_error}
use capnpc_wasm.ResourceFs.{
  wrote, write_threw, gave, Shim, get_uint32, set_uint32, write_loop, write, read_loop, read,
}
use capnpc_wasm.ResourceFs.Memory.{Framed, write-Framed}

-- A descriptor that keeps what it is given and reads from it.
abbrev shim : Shim (List ℕ)
shim = record {
  errno_badf = 8;
  errno_inval = 28;
  fd_write = λ bytes d. wrote (d ++ bytes) 0 (length bytes);
  fd_pwrite = λ bytes offset d. wrote (d ++ bytes) 0 (length bytes);
  fd_read = λ count d. gave [] 0 (slice 0 count d);
  fd_pread = λ count offset d. gave d 0 (slice offset (offset + count) d);
}

-- Two vectors, of 2 bytes at 20 and of 1 byte at 23; the result is at 16.
abbrev memory : List ℕ
memory =
    20 ∷ 0 ∷ 0 ∷ 0 ∷ 2 ∷ 0 ∷ 0 ∷ 0 ∷ 23 ∷ 0 ∷ 0 ∷ 0 ∷ 1 ∷ 0 ∷ 0 ∷ 0 ∷ 9 ∷ 9 ∷ 9 ∷ 9 ∷ 71 ∷ 72 ∷ 73
    ∷ 74 ∷ []

gathered :
    (write shim (some (70 ∷ [])) 0 2 16 none memory).descriptor ≡ some (70 ∷ 71 ∷ 72 ∷ 74 ∷ [])
unfolding write write_loop get_uint32 set_uint32
gathered = refl

counted : (get_uint32 (write shim (some []) 0 2 16 none memory).memory 16) ≡ 3
unfolding write write_loop get_uint32 set_uint32
counted = refl

scattered :
    slice 20 24 (read shim (some (5 ∷ 6 ∷ 7 ∷ [])) 0 2 16 none memory).memory ≡ 5 ∷ 6 ∷ 73 ∷ 74 ∷ []
unfolding read read_loop get_uint32 set_uint32
scattered = refl

out_of_memory :
    write shim (some []) 20 1 16 none memory
    ≡ record { ret = ok 28; memory = memory; descriptor = some [] }
unfolding write
out_of_memory = refl

-- A descriptor at the end of its budget: the write is thrown out of the import.
abbrev full : Shim (List ℕ)
full = record shim { fd_write = λ bytes d. write_threw d (limit_error "outputBytes") }

thrown_write :
    write full (some []) 0 2 16 none memory
    ≡ record { ret = err (limit_error "outputBytes"); memory = memory; descriptor = some [] }
unfolding write write_loop get_uint32
thrown_write = refl

abbrev fd : Option (List ℕ)
fd = some (70 ∷ [])

write-Framed_example :
    Framed 16 memory (write shim fd 20 1 16 none memory).memory
    × (((fd ≡ none)
          × (write shim fd 20 1 16 none memory
              ≡ record { ret = ok 8; memory = memory; descriptor = fd }))
        ⊎ ((fd ≢ none)
            × (((length memory < 20 + 1 * 8) ⊎ (length memory < 16 + 4))
                × (write shim fd 20 1 16 none memory
                    ≡ record { ret = ok 28; memory = memory; descriptor = fd })))
        ⊎ ((fd ≢ none) × (20 + 1 * 8 ≤ length memory) × (16 + 4 ≤ length memory)))
write-Framed_example = write-Framed shim fd 20 1 16 none memory
