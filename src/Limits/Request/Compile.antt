-- ===== src/Limits/Request/Compile.antt =====
-- What `validateCompile` of sdk/typescript/limits.ts has made sure of when it returns a job.
use capnpc_wasm.Common.{
  ◌+◌, ◌≤◌, ◌≡◌, refl, subst, Bool, true, false, not, ◌&&◌, List, [], ◌∷◌, String, some, length,
  All, arith,
}
use capnpc_wasm.Common.Result.{ok, bind-eq-ok, ok_inj, throw_if_ok}
use capnpc_wasm.Limits.Utf8.{Text, encode}
use capnpc_wasm.Limits.Paths.Canonical.{IsCanonical, All-map}
use capnpc_wasm.Limits.Resolve.{ResourceLimits, workspace_entries, workspace_bytes, path_bytes}
use capnpc_wasm.Limits.Mounts.{same, has, has_duplicate, Seen, capture, path_nodes}
use capnpc_wasm.Limits.Mounts.Capture.{total_size}
use capnpc_wasm.Limits.Mounts.Accepted.{paths_in, IsApart, Mounted, capture-Mounted}
use capnpc_wasm.Limits.Request.{
  CompileRequest, CompileJob, require_all, is_directory, validate_paths, validate_files,
  validate_compile,
}

abbrev pub IsPath : ResourceLimits → Text → Type 0
IsPath limits path = IsCanonical path × (length (encode path) ≤ limits path_bytes)

-- The files of a job are within the limits.
pub record IsWithin (limits : ResourceLimits) (job : CompileJob) : Type 0 where
  pub source_paths : All (λ f. IsPath limits f.0) job.sources
  pub annotation_paths : All (λ f. IsPath limits f.0) job.annotations
  pub sized : total_size job.sources + total_size job.annotations ≤ limits workspace_bytes
  pub nodes : List Text
  pub annotation_nodes : List Text
  pub distinct : has_duplicate nodes ≡ false
  pub annotations_distinct : has_duplicate annotation_nodes ≡ false
  pub noded : All (λ f. All (λ n. has nodes n ≡ true) (path_nodes f.0)) job.sources
  pub annotations_noded :
      All (λ f. All (λ n. has annotation_nodes n ≡ true) (path_nodes f.0)) job.annotations
  pub counted : length nodes + length annotation_nodes ≤ limits workspace_entries
  pub sources_apart : IsApart job.sources
  pub annotations_apart : IsApart job.annotations
  pub entered : All (λ p. has (paths_in job.sources) p ≡ true) job.entrypoints

required :
    (good : Text → Bool) (message : String) (paths : List Text) (u : Unit {0})
    → require_all good message paths ≡ ok u
    → All (λ p. good p ≡ true) paths
required good message [] u h = tt
required good message (path ∷ rest) u h =
    let (e, k) = throw_if_ok (not (good path)) _ _ h in
    (ground arith, required good message rest u k)

IsWithin-both :
    (job : CompileJob) (limits : ResourceLimits) (first second : Seen)
    → Mounted limits job.sources 0 0 first
    → Mounted limits job.annotations first.entries first.bytes second
    → All (λ p. has first.names p ≡ true) job.entrypoints
    → IsWithin limits job
unfolding has_duplicate
IsWithin-both job limits first second sources annotations entered =
    let a = sources.captured in
    let b = annotations.captured in
    record {
      source_paths = a.canonical;
      annotation_paths = b.canonical;
      sized = omega (arith, a.sized, b.sized, b.within);
      nodes = first.nodes;
      annotation_nodes = second.nodes;
      distinct = a.grown.distinct refl;
      annotations_distinct = b.grown.distinct refl;
      noded = a.noded;
      annotations_noded = b.noded;
      counted =
          let low = a.grown.bounded (omega arith) in
          let high = b.grown.bounded low in omega (arith, a.grown.counted, b.grown.counted, high);
      sources_apart = sources.apart;
      annotations_apart = annotations.apart;
      entered = All-map (λ p e. ground (arith, a.named p)) job.entrypoints entered;
    }

validate_files-IsWithin :
    (job job' : CompileJob) (limits : ResourceLimits)
    → validate_files job limits ≡ ok job'
    → IsWithin limits job'
unfolding validate_files
validate_files-IsWithin job job' limits h =
    let (first, e, k) = bind-eq-ok (capture limits job.sources 0 0) _ h in
    let (second, e', k') =
      bind-eq-ok (capture limits job.annotations first.entries first.bytes) _ k in
    let (u, e₃, k₃) = bind-eq-ok (require_all (has first.names) _ job.entrypoints) _ k' in
    let (u', e₄, k₄) = bind-eq-ok (require_all _ _ job.import_paths) _ k₃ in
    let (e₅, k₅) =
      throw_if_ok (not (same job.source_prefix []) && not (is_directory first job.source_prefix)) _
        _ k₄ in
    let sources = capture-Mounted limits job.sources 0 0 first (omega arith) e in
    let annotations =
      capture-Mounted limits job.annotations first.entries first.bytes second
        sources.captured.within e' in
    subst (IsWithin limits) (ok_inj k₅) (
      IsWithin-both job limits first second sources annotations
        (required (has first.names) _ job.entrypoints u e₃))

-- When `validateCompile` returns a job, every path of its files is canonical and within pathBytes;
-- the contents of both mounts together take at most workspaceBytes bytes, strings counted in
-- UTF-8; the files and the directories above them, each counted once in its mount, are at most
-- workspaceEntries; in neither mount does a file lie below another file; and every entrypoint is
-- one of the source files.
pub validate_compile-IsWithin :
    (input : CompileRequest) (limits : ResourceLimits) (supplied : List Text) (job : CompileJob)
    → validate_compile (some input) limits supplied ≡ ok job
    → IsWithin limits job
unfolding validate_compile
validate_compile-IsWithin input limits supplied job h =
    let (checked, e, k) = bind-eq-ok (validate_paths input limits supplied) _ h in
    validate_files-IsWithin checked job limits k
