-- ===== src/Limits/Mounts/Accepted.antt =====
-- A mount that `validateCompile` of sdk/typescript/limits.ts accepts: no file lies below a file.
use capnpc_wasm.Common.{
  ℕ, ◌≤◌, ◌≡◌, refl, ap₂, ◌∙◌, subst, Bool, true, false, ◌||◌, List, [], ◌∷◌, map, All, arith,
}
use capnpc_wasm.Common.Result.{Error, ok, bind-eq-ok, ok_inj, throw_if}
use capnpc_wasm.Limits.Utf8.{Text}
use capnpc_wasm.Limits.Paths.{any}
use capnpc_wasm.Limits.Paths.Canonical.{All-map}
use capnpc_wasm.Limits.Resolve.{ResourceLimits, workspace_bytes}
use capnpc_wasm.Limits.Mounts.{has, Files, Seen, add_files, check_collisions, capture, directories}
use capnpc_wasm.Limits.Mounts.Capture.{Captured, add_files-Captured}

abbrev pub paths_in : Files → List Text
paths_in files = map (λ f. f.0) files

any_ext : (p q : Text → Bool) (xs : List Text) → ((x : Text) → p x ≡ q x) → any p xs ≡ any q xs
any_ext p q [] h = refl
any_ext p q (x ∷ xs) h = ap₂ ◌||◌ (h x) (any_ext p q xs h)

throw_if-eq-ok : (bad : Bool) (e : Error) (u : Unit {0}) → throw_if bad e ≡ ok u → bad ≡ false
throw_if-eq-ok true e u h = absurd cc
throw_if-eq-ok false e u h = refl

apart_all :
    (names rest : List Text) (u : Unit {0})
    → check_collisions names rest ≡ ok u
    → All (λ p. any (has names) (directories p) ≡ false) rest
unfolding check_collisions
apart_all names [] u h = tt
apart_all names (path ∷ rest) u h =
    let (v, e, k) = bind-eq-ok (check_collisions names rest) _ h in
    (throw_if-eq-ok (any (has names) (directories path)) _ u k, apart_all names rest v e)

abbrev pub fresh : ℕ → ℕ → Seen
fresh entries bytes = record { names = []; nodes = []; entries = entries; bytes = bytes }

-- No directory above a file is a file.
abbrev pub IsApart : Files → Type 0
IsApart files = All (λ f. any (has (paths_in files)) (directories f.0) ≡ false) files

pub record Mounted (limits : ResourceLimits) (files : Files) (entries bytes : ℕ) (seen : Seen)
    : Type 0 where
  pub captured : Captured limits files (fresh entries bytes) seen
  pub apart : IsApart files

pub capture-Mounted :
    (limits : ResourceLimits) (files : Files) (entries bytes : ℕ) (seen : Seen)
    → bytes ≤ limits workspace_bytes
    → capture limits files entries bytes ≡ ok seen
    → Mounted limits files entries bytes seen
unfolding capture
capture-Mounted limits files entries bytes seen low h =
    let (found, e, k) = bind-eq-ok (add_files limits files (fresh entries bytes)) _ h in
    let (done, e', k') = bind-eq-ok (check_collisions found.names found.names) _ k in
    let captured = add_files-Captured limits files (fresh entries bytes) found low e in
    let clear =
      captured.covers (λ p. any (has found.names) (directories p))
        (apart_all found.names found.names done e') in
    subst (Mounted limits files entries bytes) (ok_inj k') (record {
      captured = captured;
      apart =
          All-map
            (λ f c.
              any_ext (has (paths_in files)) (has found.names) (directories f.0)
                (λ x. ground (arith, captured.named x))
              ∙ c)
            files clear.0;
    })
