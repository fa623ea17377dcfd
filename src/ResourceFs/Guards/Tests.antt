-- ===== src/ResourceFs/Guards/Tests.antt =====
-- The guarded imports of sdk/typescript/resource-fs.ts on concrete shims.
use capnpc_wasm.Common.{
  ℕ, ◌+◌, ◌≤◌, ◌≡◌, refl, false, List, [], ◌∷◌, arith, ltb, if◌then◌else◌, length, replicate,
  length-replicate,
}
use capnpc_wasm.Common.Result.{Result, ok, err, plain_error, limit_error}
use capnpc_wasm.ResourceFs.Guards.{
  unsigned, Instance, path_rename, Imports, Random, fill_loop, random_get, fd_readdir,
  fd_prestat_dir_name, poll_oneoff, check_positions, path_import,
}
use capnpc_wasm.ResourceFs.Guards.Random.{over, Fills, random_get-over}
use capnpc_wasm.ResourceFs.Guards.Shelter.{
  Request, readdir, prestat_dir_name, poll, with_path, serve, serve_all, AreAlikeInside,
  serve_all_alike,
}

-- A source that draws its own count.
abbrev counting : Random ℕ
counting n source = ok (replicate n source, source + 1)

counting-Fills : Fills ℕ counting
counting-Fills n source l = (replicate n source, source + 1, length-replicate n source, refl)

abbrev zeros : List ℕ
zeros = replicate 8 0

random_get-over_example :
    (bytes : List ℕ) × (next : ℕ) × (length bytes ≡ 4)
    × (random_get counting 28 2 4 zeros 7 ≡ ok (0, over 2 6 bytes zeros, next))
random_get-over_example = random_get-over counting counting-Fills 28 2 4 zeros 7 (ground arith)

four_drawn : random_get counting 28 2 4 zeros 7 ≡ ok (0, 0 ∷ 0 ∷ 7 ∷ 7 ∷ 7 ∷ 7 ∷ 0 ∷ 0 ∷ [], 8)
unfolding random_get fill_loop capnpc_wasm.Rewriter.Writer.set_at
four_drawn = refl

-- A length of -1 is no length that fits.
negative_length : random_get counting 28 2 4294967295 zeros 7 ≡ ok (28, zeros, 7)
unfolding random_get
negative_length = refl

-- A memory of a page, whose length is all that the world holds.
abbrev page : Instance ℕ
page = record {
  errno_inval = 28;
  errno_notsup = 58;
  memory_length = λ world. world;
  path_bytes = 100;
}

abbrev checked : ℕ → ℕ → Result (ℕ × ℕ)
checked end world = if ltb world end then err (plain_error "out of bounds") else ok (0, world)

-- A shim that throws on a range outside the memory, and one that does not look.
abbrev careful : Imports ℕ
careful = record {
  fd_readdir =
      λ fd buffer count cookie used world. checked (unsigned buffer + unsigned count) world;
  fd_prestat_dir_name = λ fd pointer count world. checked (unsigned pointer + unsigned count) world;
  poll_oneoff = λ input output count rest world. checked (unsigned input + 48) world;
  path_import = λ name args world. ok (0, world);
}

abbrev careless : Imports ℕ
careless = record {
  fd_readdir = λ fd buffer count cookie used world. ok (0, world);
  fd_prestat_dir_name = λ fd pointer count world. ok (0, world);
  poll_oneoff = λ input output count rest world. ok (0, world);
  path_import = λ name args world. ok (0, world);
}

checked_inside : (end world : ℕ) → end ≤ world → checked end world ≡ ok (0, world)
checked_inside end world l = let e : ltb world end ≡ false = ground arith in rw e

careful-AreAlikeInside : AreAlikeInside page careful careless
careful-AreAlikeInside = record {
  readdirs = λ fd buffer count cookie used world h k.
      checked_inside (unsigned buffer + unsigned count) world h;
  prestats = λ fd pointer count world h. checked_inside (unsigned pointer + unsigned count) world h;
  polls = λ input output rest world h k. checked_inside (unsigned input + 48) world h;
  paths = λ name args world h. refl;
}

abbrev requests : List Request
requests =
    readdir 3 65000 1000 0 16
    ∷ prestat_dir_name 3 64 8
    ∷ poll 0 64 1 (8 ∷ [])
    ∷ poll 0 64 4294967295 (8 ∷ [])
    ∷ with_path path_rename (3 ∷ 16 ∷ 108 ∷ 3 ∷ 32 ∷ 5 ∷ [])
    ∷ []

returned : serve_all page careful requests 65536 ≡ ok (28 ∷ 0 ∷ 0 ∷ 58 ∷ 0 ∷ [], 65536)
unfolding serve_all serve fd_readdir fd_prestat_dir_name poll_oneoff path_import check_positions
returned = refl

long_path :
    path_import page careful path_rename (3 ∷ 16 ∷ 8 ∷ 3 ∷ 32 ∷ 109 ∷ []) 65536
    ≡ err (limit_error "pathBytes")
unfolding path_import check_positions
long_path = refl

serve_all_alike_example :
    serve_all page careful requests 65536 ≡ serve_all page careless requests 65536
serve_all_alike_example =
    serve_all_alike page careful careless careful-AreAlikeInside requests 65536
