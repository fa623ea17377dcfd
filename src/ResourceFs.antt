-- ===== src/ResourceFs.antt =====
-- `boundWasiIO` of sdk/typescript/resource-fs.ts: the reads and writes that a guest asks for, with
-- its pointers checked against its memory. The WASI shim's descriptors are a parameter.
use capnpc_wasm.Common.{
  ℕ, zero, suc, ◌+◌, ◌*◌, ◌/◌, ◌%◌, ◌^◌, Bool, true, false, not, ◌||◌, Option, none, some, List, [],
  ◌∷◌, ltb, ◌==◌, if◌then◌else◌, length, get_or, set, take, drop, slice,
}
use capnpc_wasm.Common.Result.{Error, Result, ok, err}
use capnpc_wasm.Rewriter.Writer.{set_at}
pub mod Memory
pub mod Budget
pub mod Descriptors
pub mod Guards
pub mod Entries
mod Tests
mod BudgetTests

-- What a call of a descriptor comes to, with its state after the call: an error code with how much it
-- wrote or what it read, or an error that it throws, as a guarded write does at the end of its budget.
pub data WriteCall (D : Type 0) : Type 0 where
  wrote : D → ℕ → ℕ → WriteCall D
  write_threw : D → Error → WriteCall D

pub data ReadCall (D : Type 0) : Type 0 where
  gave : D → ℕ → List ℕ → ReadCall D
  read_threw : D → Error → ReadCall D

-- The pinned shim: two of its error codes, and the calls on one open descriptor.
pub record Shim (D : Type 0) : Type 0 where
  pub errno_badf : ℕ
  pub errno_inval : ℕ
  pub fd_write : List ℕ → D → WriteCall D
  pub fd_pwrite : List ℕ → ℕ → D → WriteCall D
  pub fd_read : ℕ → D → ReadCall D
  pub fd_pread : ℕ → ℕ → D → ReadCall D

-- What an import returns or throws, and what it leaves in memory and in the descriptor.
pub record Outcome (D : Type 0) : Type 0 where
  pub ret : Result ℕ
  pub memory : List ℕ
  pub descriptor : D

-- `view.getUint32(at, true)` and `view.setUint32(at, value, true)`, inside the memory.
unfoldable pub get_uint32 : List ℕ → ℕ → ℕ
get_uint32 memory at =
    get_or memory at 0
    + get_or memory (at + 1) 0 * 256
    + get_or memory (at + 2) 0 * 65536
    + get_or memory (at + 3) 0 * 16777216

unfoldable pub set_uint32 : ℕ → ℕ → List ℕ → List ℕ
set_uint32 at value memory =
    set
      (set (set (set memory at (value % 256)) (at + 1) (value / 256 % 256)) (at + 2)
        (value / 65536 % 256))
      (at + 3) (value / 16777216 % 256)

-- `wasi.fds[fd]` is absent or a descriptor.
abbrev pub opened : {D : Type 0} → Outcome D → Outcome (Option D)
opened out = record { ret = out.ret; memory = out.memory; descriptor = some out.descriptor }

abbrev pub advance : Option ℕ → ℕ → Option ℕ
advance none by = none
advance (some offset) by = some (offset + by)

module _ {D : Type 0} (shim : Shim D) where
  abbrev pub write_part : Option ℕ → List ℕ → D → WriteCall D
  write_part none bytes d = shim.fd_write bytes d
  write_part (some offset) bytes d = shim.fd_pwrite bytes offset d

  abbrev pub read_part : Option ℕ → ℕ → D → ReadCall D
  read_part none count d = shim.fd_read count d
  read_part (some offset) count d = shim.fd_pread count offset d

  -- The loop of `write` over the iovecs from `at` on.
  unfoldable pub write_loop : ℕ → ℕ → ℕ → Option ℕ → ℕ → List ℕ → D → Outcome D
  write_loop zero at result offset written memory d = record {
    ret = ok 0;
    memory = set_uint32 result written memory;
    descriptor = d;
  }
  write_loop (suc count) at result offset written memory d =
      let address = get_uint32 memory at in
      let size = get_uint32 memory (at + 4) in
      elim (ltb (length memory) (address + size)) [
        | true ↦ record { ret = ok shim.errno_inval; memory = memory; descriptor = d }
        | false ↦ elim (write_part offset (slice address (address + size) memory) d) [
          | write_threw d' thrown ↦ record { ret = err thrown; memory = memory; descriptor = d' }
          | wrote d' ret nwritten ↦ elim (not (ret == 0) || not (nwritten == size)) [
            | true ↦ record {
              ret = ok ret;
              memory = set_uint32 result (written + nwritten) memory;
              descriptor = d';
            }
            | false ↦
                write_loop count (at + 8) result (advance offset nwritten) (written + nwritten)
                  (set_uint32 result (written + nwritten) memory) d'
          ]
        ]
      ]

  -- `pointer + count * 8 > bytes.length || result + 4 > bytes.length`
  abbrev pub outside : ℕ → ℕ → ℕ → List ℕ → Bool
  outside pointer count result memory =
      ltb (length memory) (pointer + count * 8) || ltb (length memory) (result + 4)

  -- `fd_write` and `fd_pwrite`; the arguments are int32, by their bit patterns.
  unfoldable pub write : Option D → ℕ → ℕ → ℕ → Option ℕ → List ℕ → Outcome (Option D)
  write none pointer count result offset memory = record {
    ret = ok shim.errno_badf;
    memory = memory;
    descriptor = none;
  }
  write (some d) pointer count result offset memory =
      if outside pointer count result memory
      then record { ret = ok shim.errno_inval; memory = memory; descriptor = some d }
      else opened (write_loop count pointer result offset 0 memory d)

  -- The loop of `read`.
  unfoldable pub read_loop : ℕ → ℕ → ℕ → Option ℕ → ℕ → List ℕ → D → Outcome D
  unfolding set_at
  read_loop zero at result offset total memory d = record {
    ret = ok 0;
    memory = set_uint32 result total memory;
    descriptor = d;
  }
  read_loop (suc count) at result offset total memory d =
      let address = get_uint32 memory at in
      let size = get_uint32 memory (at + 4) in
      elim (ltb (length memory) (address + size)) [
        | true ↦ record { ret = ok shim.errno_inval; memory = memory; descriptor = d }
        | false ↦ elim (read_part offset size d) [
          | read_threw d' thrown ↦ record { ret = err thrown; memory = memory; descriptor = d' }
          | gave d' ret data_ ↦ elim (ret == 0) [
            | false ↦ record {
              ret = ok ret;
              memory = set_uint32 result total memory;
              descriptor = d';
            }
            | true ↦
                let memory' = set_at address data_ memory in
                let total' = total + length data_ in
                elim (length data_ == size) [
                  | false ↦ record {
                    ret = ok 0;
                    memory = set_uint32 result total' memory';
                    descriptor = d';
                  }
                  | true ↦
                      read_loop count (at + 8) result (advance offset (length data_)) total' memory'
                        d'
                ]
          ]
        ]
      ]

  unfoldable pub read : Option D → ℕ → ℕ → ℕ → Option ℕ → List ℕ → Outcome (Option D)
  read none pointer count result offset memory = record {
    ret = ok shim.errno_badf;
    memory = memory;
    descriptor = none;
  }
  read (some d) pointer count result offset memory =
      if outside pointer count result memory
      then record { ret = ok shim.errno_inval; memory = memory; descriptor = some d }
      else opened (read_loop count pointer result offset 0 memory d)
