-- ===== src/ResourceFs/Guards.antt =====
-- The imports of `boundWasiIO` of sdk/typescript/resource-fs.ts that check a range of the guest's
-- memory or a length before they act: random_get, fd_readdir, fd_prestat_dir_name, poll_oneoff and
-- those that take a path. The shim's own imports and getRandomValues are parameters.
pub mod Random
pub mod Shelter
mod Tests
use capnpc_wasm.Common.{
  ℕ, zero, suc, ◌+◌, ◌-◌, ◌%◌, ◌^◌, min, Bool, true, false, not, ◌||◌, List, [], ◌∷◌, ltb, ◌==◌,
  if◌then◌else◌, get_or, length,
}
use capnpc_wasm.Common.Result.{Error, Result, ok, err, stuck, limit_error, throw_if, ◌>>=◌, ◌>>◌}
use capnpc_wasm.Rewriter.Writer.{set_at}

-- `value >>> 0`
abbrev pub unsigned : ℕ → ℕ
unsigned value = value % 2 ^ 32

-- What the imports use of the instance: two error codes of the shim, the length of the memory, and
-- `limits.pathBytes`.
pub record Instance (World : Type 0) : Type 0 where
  pub errno_inval : ℕ
  pub errno_notsup : ℕ
  pub memory_length : World → ℕ
  pub path_bytes : ℕ

-- The keys of `paths`.
pub data PathImport : Type 0 where
  path_create_directory path_filestat_get path_filestat_set_times path_link path_open : PathImport
  path_readlink path_remove_directory path_rename path_symlink path_unlink_file : PathImport

-- The arguments that are the length of a path.
abbrev pub positions : PathImport → List ℕ
positions path_create_directory = 2 ∷ []
positions path_filestat_get = 3 ∷ []
positions path_filestat_set_times = 3 ∷ []
positions path_link = 3 ∷ 6 ∷ []
positions path_open = 3 ∷ []
positions path_readlink = 2 ∷ []
positions path_remove_directory = 2 ∷ []
positions path_rename = 2 ∷ 5 ∷ []
positions path_symlink = 1 ∷ 4 ∷ []
positions path_unlink_file = 2 ∷ []

-- The shim's imports: each returns a number and what it leaves of the world, or throws.
pub record Imports (World : Type 0) : Type 0 where
  pub fd_readdir : ℕ → ℕ → ℕ → ℕ → ℕ → World → Result (ℕ × World)
  pub fd_prestat_dir_name : ℕ → ℕ → ℕ → World → Result (ℕ × World)
  pub poll_oneoff : ℕ → ℕ → ℕ → List ℕ → World → Result (ℕ × World)
  pub path_import : PathImport → List ℕ → World → Result (ℕ × World)

module _ {World : Type 0} (inst : Instance World) where
  -- The loop over the positions; an argument that is absent counts as 0.
  unfoldable pub check_positions : List ℕ → List ℕ → Result (Unit {0})
  check_positions [] args = ok tt
  check_positions (position ∷ rest) args =
      throw_if (ltb (inst.path_bytes + 8) (unsigned (get_or args position 0)))
        (limit_error "pathBytes")
      >> check_positions rest args

module _ {World : Type 0} (inst : Instance World) (shim : Imports World) where
  unfoldable pub fd_readdir : ℕ → ℕ → ℕ → ℕ → ℕ → World → Result (ℕ × World)
  fd_readdir fd buffer count cookie used world =
      if ltb (inst.memory_length world) (unsigned buffer + unsigned count)
        || ltb (inst.memory_length world) (unsigned used + 4)
      then ok (inst.errno_inval, world)
      else shim.fd_readdir fd buffer count cookie used world

  unfoldable pub fd_prestat_dir_name : ℕ → ℕ → ℕ → World → Result (ℕ × World)
  fd_prestat_dir_name fd pointer count world =
      if ltb (inst.memory_length world) (unsigned pointer + unsigned count)
      then ok (inst.errno_inval, world)
      else shim.fd_prestat_dir_name fd pointer count world

  unfoldable pub poll_oneoff : ℕ → ℕ → ℕ → List ℕ → World → Result (ℕ × World)
  poll_oneoff input output count rest world =
      if unsigned count == 0
      then ok (inst.errno_inval, world)
      else if not (unsigned count == 1)
      then ok (inst.errno_notsup, world)
      else if ltb (inst.memory_length world) (unsigned input + 48)
          || ltb (inst.memory_length world) (unsigned output + 32)
      then ok (inst.errno_inval, world)
      else shim.poll_oneoff input output 1 rest world

  unfoldable pub path_import : PathImport → List ℕ → World → Result (ℕ × World)
  path_import name args world =
      check_positions inst (positions name) args >> shim.path_import name args world

-- `crypto.getRandomValues` on an array of this length: the bytes, and what is left of the source.
abbrev pub Random : Type 0 → Type 0
Random Source = ℕ → Source → Result (List ℕ × Source)

module _ {Source : Type 0} (get_random_values : Random Source) where
  -- The loop of random_get.
  unfoldable pub fill_loop : ℕ → ℕ → ℕ → ℕ → List ℕ → Source → Result (List ℕ × Source)
  fill_loop zero buffer count filled memory source = stuck
  fill_loop (suc fuel) buffer count filled memory source =
      if ltb filled count
      then (get_random_values (min count (filled + 65536) - filled) source >>= λ drawn.
          fill_loop fuel buffer count (filled + 65536) (set_at (buffer + filled) drawn.0 memory)
            drawn.1)
      else ok (memory, source)

  unfoldable pub random_get : ℕ → ℕ → ℕ → List ℕ → Source → Result (ℕ × List ℕ × Source)
  random_get errno_inval buffer count memory source =
      if ltb (length memory) (unsigned buffer + unsigned count)
      then ok (errno_inval, memory, source)
      else (fill_loop (suc (unsigned count)) (unsigned buffer) (unsigned count) 0 memory source
          >>= λ filled. ok (0, filled.0, filled.1))
