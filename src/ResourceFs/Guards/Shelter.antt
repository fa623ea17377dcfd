-- ===== src/ResourceFs/Guards/Shelter.antt =====
-- What the guards of `boundWasiIO` in sdk/typescript/resource-fs.ts keep from the shim.
use capnpc_wasm.Common.{
  ℕ, ◌+◌, ◌≤◌, ◌≡◌, refl, ap, not, List, [], ◌∷◌, arith, ltb, ◌==◌, Bool-cases, inl, inr, get_or,
  All, if◌then◌else◌,
}
use capnpc_wasm.Common.Result.{Result, ok, err, stuck, ◌>>=◌, ◌>>◌}
use capnpc_wasm.ResourceFs.Guards.{
  unsigned, Instance, PathImport, positions, Imports, fd_readdir, fd_prestat_dir_name, poll_oneoff,
  check_positions, path_import,
}

-- A call of a guest.
pub data Request : Type 0 where
  readdir : ℕ → ℕ → ℕ → ℕ → ℕ → Request
  prestat_dir_name : ℕ → ℕ → ℕ → Request
  poll : ℕ → ℕ → ℕ → List ℕ → Request
  with_path : PathImport → List ℕ → Request

module _ {World : Type 0} (inst : Instance World) where
  unfoldable pub serve : Imports World → Request → World → Result (ℕ × World)
  serve shim (readdir fd buffer count cookie used) world =
      fd_readdir inst shim fd buffer count cookie used world
  serve shim (prestat_dir_name fd pointer count) world =
      fd_prestat_dir_name inst shim fd pointer count world
  serve shim (poll input output count rest) world =
      poll_oneoff inst shim input output count rest world
  serve shim (with_path name args) world = path_import inst shim name args world

  abbrev followed_by :
      Result (ℕ × World) → (World → Result (List ℕ × World)) → Result (List ℕ × World)
  followed_by first rest = first >>= λ x. rest x.1 >>= λ r. ok (x.0 ∷ r.0, r.1)

  -- One call after the other, with the numbers that they return.
  unfoldable pub serve_all : Imports World → List Request → World → Result (List ℕ × World)
  serve_all shim [] world = ok ([], world)
  serve_all shim (request ∷ requests) world =
      followed_by (serve shim request world) (serve_all shim requests)

  abbrev IsInside : World → ℕ → ℕ → Type 0
  IsInside world pointer count = unsigned pointer + count ≤ inst.memory_length world

  -- Two shims that do the same on every call whose ranges lie inside the guest's memory, with one
  -- subscription, and with paths of `pathBytes + 8` bytes at most.
  pub record AreAlikeInside (s t : Imports World) : Type 0 where
    pub readdirs :
        (fd buffer count cookie used : ℕ) (world : World)
        → IsInside world buffer (unsigned count)
        → IsInside world used 4
        → s.fd_readdir fd buffer count cookie used world
          ≡ t.fd_readdir fd buffer count cookie used world
    pub prestats :
        (fd pointer count : ℕ) (world : World)
        → IsInside world pointer (unsigned count)
        → s.fd_prestat_dir_name fd pointer count world
          ≡ t.fd_prestat_dir_name fd pointer count world
    pub polls :
        (input output : ℕ) (rest : List ℕ) (world : World)
        → IsInside world input 48
        → IsInside world output 32
        → s.poll_oneoff input output 1 rest world ≡ t.poll_oneoff input output 1 rest world
    pub paths :
        (name : PathImport) (args : List ℕ) (world : World)
        → All (λ p. unsigned (get_or args p 0) ≤ inst.path_bytes + 8) (positions name)
        → s.path_import name args world ≡ t.path_import name args world

  check_positions-bind :
      {B : Type 0} (places args : List ℕ) (x y : Result B)
      → (All (λ p. unsigned (get_or args p 0) ≤ inst.path_bytes + 8) places → x ≡ y)
      → (check_positions inst places args >> x) ≡ (check_positions inst places args >> y)
  unfolding check_positions
  check_positions-bind [] args x y h = h tt
  check_positions-bind (p ∷ places) args x y h =
      elim (Bool-cases (ltb (inst.path_bytes + 8) (unsigned (get_or args p 0)))) [
        | inl e ↦ rw (e) refl
        | inr e ↦ rw (e) (check_positions-bind places args x y (λ rest. h (ground arith, rest)))
      ]

  module _ (s t : Imports World) (alike : AreAlikeInside s t) where
    serve-alike :
        (request : Request) (world : World) → serve s request world ≡ serve t request world
    unfolding serve fd_readdir fd_prestat_dir_name poll_oneoff path_import
    serve-alike (readdir fd buffer count cookie used) world =
        elim (Bool-cases (ltb (inst.memory_length world) (unsigned buffer + unsigned count))) [
          | inl e ↦ rw (e)
          | inr e ↦ elim (Bool-cases (ltb (inst.memory_length world) (unsigned used + 4))) [
            | inl f ↦ rw (e, f)
            | inr f ↦
                rw (e, f)
                  (alike.readdirs fd buffer count cookie used world (ground arith) (ground arith))
          ]
        ]
    serve-alike (prestat_dir_name fd pointer count) world =
        elim (Bool-cases (ltb (inst.memory_length world) (unsigned pointer + unsigned count))) [
          | inl e ↦ rw (e)
          | inr e ↦ rw (e) (alike.prestats fd pointer count world (ground arith))
        ]
    serve-alike (poll input output count rest) world =
        elim (Bool-cases (ltb (inst.memory_length world) (unsigned input + 48))) [
          | inl e ↦ rw (e)
          | inr e ↦ elim (Bool-cases (ltb (inst.memory_length world) (unsigned output + 32))) [
            | inl f ↦ rw (e, f)
            | inr f ↦
                rw (e, f)
                  (ap
                    (λ r.
                      if unsigned count == 0
                      then ok (inst.errno_inval, world)
                      else if not (unsigned count == 1)
                      then ok (inst.errno_notsup, world)
                      else r)
                    (alike.polls input output rest world (ground arith) (ground arith)))
          ]
        ]
    serve-alike (with_path name args) world =
        check_positions-bind (positions name) args _ _ (alike.paths name args world)

    -- A guest that makes whatever calls of fd_readdir, fd_prestat_dir_name, poll_oneoff and the imports
    -- that take a path gets the same results, in the same world, from two shims that do the same on
    -- calls whose ranges lie inside its memory, with one subscription, and with paths within the bound:
    -- no other call reaches the shim.
    pub serve_all_alike :
        (requests : List Request) (world : World)
        → serve_all s requests world ≡ serve_all t requests world
    unfolding serve_all
    serve_all_alike [] world = refl
    serve_all_alike (request ∷ requests) world =
        rw (serve-alike request world) (after (serve t request world) (serve_all_alike requests))
      where
        after :
            (first : Result (ℕ × World))
            → ((w : World) → serve_all s requests w ≡ serve_all t requests w)
            → followed_by first (serve_all s requests) ≡ followed_by first (serve_all t requests)
        after (err thrown) h = refl
        after stuck h = refl
        after (ok x) h = rw (h x.1)
