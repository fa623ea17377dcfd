-- ===== src/ResourceFs/Descriptors.antt =====
-- The ceiling on live descriptors in `boundWasiIO` of sdk/typescript/resource-fs.ts: path_open,
-- fd_close and fd_renumber. What the shim's own imports do to its table is a parameter.
pub mod Live
use capnpc_wasm.Common.{
  ℕ, zero, suc, ◌+◌, ◌-◌, ◌%◌, ◌^◌, Bool, true, false, not, ◌&&◌, List, [], ◌∷◌, ltb, leb as le_b,
  ◌==◌, if◌then◌else◌, get_or,
}

-- `maximumDescriptors`
abbrev pub maximum_descriptors : ℕ
maximum_descriptors = 1024

-- `wasi.fds`, whether each slot holds a descriptor, and `live`.
pub record Table : Type 0 where
  pub fds : List Bool
  pub live : ℕ

-- `countLive()`
unfoldable pub count_live : List Bool → ℕ
count_live [] = 0
count_live (true ∷ fds) = suc (count_live fds)
count_live (false ∷ fds) = count_live fds

-- What one of the shim's imports does: it returns a number or throws, and leaves a table.
pub data Called : Type 0 where
  returned : ℕ → List Bool → Called
  threw : List Bool → Called

-- What the guest's call comes to.
pub data Answer : Type 0 where
  answered : ℕ → Answer
  rethrown : Answer

-- The pinned shim: two of its error codes, and its imports on its table. A call's other arguments are
-- in `Call`.
pub record Imports (Call : Type 0) : Type 0 where
  pub errno_inval : ℕ
  pub errno_nfile : ℕ
  pub open_file : Call → List Bool → Called
  pub release_slot : Call → ℕ → List Bool → Called

module _ {Call : Type 0} (shim : Imports Call) where
  -- `if (ret === 0) live++`, past the try block.
  abbrev pub opened : ℕ → Called → Answer × Table
  opened live (threw fds) = (rethrown, record { fds = fds; live = count_live fds })
  opened live (returned ret fds) =
      (answered ret, record { fds = fds; live = if ret == 0 then live + 1 else live })

  -- `result` is the pointer for the new descriptor's number, in a memory of `size` bytes.
  unfoldable pub path_open : Call → ℕ → ℕ → Table → Answer × Table
  path_open call result size table =
      if ltb size (result % 2 ^ 32 + 4)
      then (answered shim.errno_inval, table)
      else if le_b maximum_descriptors table.live
      then (answered shim.errno_nfile, table)
      else opened table.live (shim.open_file call table.fds)

  abbrev pub holds : List Bool → ℕ → Bool
  holds fds fd = get_or fds fd false

  abbrev pub released : Bool → ℕ → ℕ → Called → Answer × Table
  released held fd live (threw fds) = (rethrown, record { fds = fds; live = count_live fds })
  released held fd live (returned ret fds) = (
    answered ret,
    record {
      fds = fds;
      live = if held && (not (holds fds fd) && ltb 0 live) then live - 1 else live;
    },
  )

  -- fd_close and fd_renumber.
  unfoldable pub release : Call → ℕ → Table → Answer × Table
  release call fd table =
      released (holds table.fds fd) fd table.live (shim.release_slot call fd table.fds)

-- A call of a guest.
pub data Request (Call : Type 0) : Type 0 where
  opening : Call → ℕ → ℕ → Request Call
  releasing : Call → ℕ → Request Call

unfoldable pub serve : {Call : Type 0} → Imports Call → Request Call → Table → Table
serve shim (opening call result size) table = (path_open shim call result size table).1
serve shim (releasing call fd) table = (release shim call fd table).1

-- The calls of a guest, one after the other.
unfoldable pub serve_all : {Call : Type 0} → Imports Call → List (Request Call) → Table → Table
serve_all shim [] table = table
serve_all shim (request ∷ requests) table = serve_all shim requests (serve shim request table)
