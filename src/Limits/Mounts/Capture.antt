-- ===== src/Limits/Mounts/Capture.antt =====
-- What the loop over a mount in `validateCompile` of sdk/typescript/limits.ts counts and accepts.
use capnpc_wasm.Common.{
  ℕ, ◌+◌, ◌-◌, ◌≤◌, ◌≡◌, refl, subst, Bool, true, false, not, ◌&&◌, ◌||◌, List, [], ◌∷◌, arith, ltb,
  length, map, All,
}
use capnpc_wasm.Common.Result.{ok, bind-eq-ok, ok_inj, throw_if_ok, ◌>>=◌}
use capnpc_wasm.Limits.Utf8.{Text, encode}
use capnpc_wasm.Limits.Utf8.Size.{utf8_size-encode}
use capnpc_wasm.Limits.Paths.{text, check_path}
use capnpc_wasm.Limits.Paths.Canonical.{IsCanonical, All-map, check_path_iff}
use capnpc_wasm.Limits.Resolve.{ResourceLimits, workspace_entries, workspace_bytes, path_bytes}
use capnpc_wasm.Limits.Mounts.{
  same, has, has_duplicate, Contents, text_contents, bytes_contents, other_contents, Files, Seen,
  add_nodes, add_file, add_contents, add_files, contents_size, is_other, path_nodes,
}

-- The bytes of a file as they are staged.
abbrev pub file_size : Contents → ℕ
file_size (text_contents contents) = length (encode contents)
file_size (bytes_contents contents) = length contents
file_size other_contents = 0

abbrev pub total_size : Files → ℕ
total_size [] = 0
total_size (file ∷ files) = file_size file.1 + total_size files

checked_path :
    (path : Text) (maximum : ℕ) {q : Text} → check_path (text path) maximum ≡ ok q → q ≡ path
unfolding check_path
checked_path path maximum h = ground arith

same_refl : (path : Text) → same path path ≡ true
same_refl [] = refl
same_refl (unit ∷ units) = ground (arith, same_refl units)

-- The counts agree with the nodes, which are all different.
pub record Grown (maximum : ℕ) (seen seen' : Seen) : Type 0 where
  pub counted : seen'.entries + length seen.nodes ≡ seen.entries + length seen'.nodes
  pub bounded : seen.entries ≤ maximum → seen'.entries ≤ maximum
  pub distinct : has_duplicate seen.nodes ≡ false → has_duplicate seen'.nodes ≡ false
  pub kept : (n : Text) → has seen.nodes n ≡ true → has seen'.nodes n ≡ true

module _ (maximum : ℕ) where
  add_nodes-Grown :
      (nodes : List Text) (seen seen' : Seen)
      → add_nodes maximum nodes seen ≡ ok seen'
      → (seen'.names ≡ seen.names)
        × (seen'.bytes ≡ seen.bytes)
        × Grown maximum seen seen'
        × All (λ n. has seen'.nodes n ≡ true) nodes
  unfolding add_nodes has_duplicate
  add_nodes-Grown [] seen seen' h =
      subst (λ s. (s.names ≡ seen.names) × (s.bytes ≡ seen.bytes) × Grown maximum seen s × Unit {0})
        (ok_inj h)
        (
          refl,
          refl,
          record { counted = refl; bounded = λ b. b; distinct = λ d. d; kept = λ n h. h },
          tt,
        )
  add_nodes-Grown (node ∷ nodes) seen seen' h =
      let (fits, k) =
        throw_if_ok (not (has seen.nodes node) && ltb maximum (seen.entries + 1)) _ _ h in
      let (names, bytes, grown, noded) = add_nodes-Grown nodes _ seen' k in
      let c = grown.counted in
      let b = grown.bounded in
      let d = grown.distinct in
      (
        names,
        bytes,
        record {
          counted = ground arith;
          bounded = λ e. ground arith;
          distinct = λ e. ground arith;
          kept = λ n e. grown.kept n (ground arith);
        },
        (grown.kept node (ground (arith, same_refl node)), noded),
      )

contents_size_ok :
    (contents : Contents) (budget : ℕ)
    → contents_size contents budget ≤ budget
    → contents_size contents budget ≡ file_size contents
contents_size_ok (text_contents contents) budget h =
    ground (arith, utf8_size-encode contents budget)
contents_size_ok (bytes_contents contents) budget h = refl
contents_size_ok other_contents budget h = refl

-- What one file, or a run of files, of a mount does to the counts.
pub record Captured (limits : ResourceLimits) (files : Files) (seen seen' : Seen) : Type 0 where
  pub grown : Grown (limits workspace_entries) seen seen'
  pub sized : seen'.bytes ≡ seen.bytes + total_size files
  pub within : seen'.bytes ≤ limits workspace_bytes
  pub named : (p : Text) → has seen'.names p ≡ (has (map (λ f. f.0) files) p || has seen.names p)
  pub covers :
      (p : Text → Bool)
      → All (λ n. p n ≡ false) seen'.names
      → All (λ f. p f.0 ≡ false) files × All (λ n. p n ≡ false) seen.names
  pub noded : All (λ f. All (λ n. has seen'.nodes n ≡ true) (path_nodes f.0)) files
  pub canonical : All (λ f. IsCanonical f.0 × (length (encode f.0) ≤ limits path_bytes)) files

module _ (limits : ResourceLimits) where
  add_contents_ok :
      (path : Text) (contents : Contents) (seen seen' : Seen)
      → seen.bytes ≤ limits workspace_bytes
      → add_contents limits path contents seen ≡ ok seen'
      → (record seen { bytes = seen.bytes + file_size contents } ≡ seen')
        × (seen.bytes + file_size contents ≤ limits workspace_bytes)
  unfolding add_contents
  add_contents_ok path contents seen seen' low h =
      let size = contents_size contents (limits workspace_bytes - seen.bytes) in
      let (known, h₁) = throw_if_ok (is_other contents) _ _ h in
      let (fits, h₂) = throw_if_ok (ltb (limits workspace_bytes) (seen.bytes + size)) _ _ h₁ in
      let total : seen.bytes + size ≤ limits workspace_bytes = ground arith in
      let exact = contents_size_ok contents (limits workspace_bytes - seen.bytes) (omega arith) in
      (rw exact at (ok_inj h₂), rw exact at total)

  one_file :
      (path : Text) (contents : Contents) (seen counted : Seen)
      → IsCanonical path × (length (encode path) ≤ limits path_bytes)
      → counted.names ≡ path ∷ seen.names
      → counted.bytes ≡ seen.bytes
      → Grown (limits workspace_entries) (record seen { names = path ∷ seen.names }) counted
      → All (λ n. has counted.nodes n ≡ true) (path_nodes path)
      → counted.bytes + file_size contents ≤ limits workspace_bytes
      → Captured limits
          ((path, contents) ∷ [])
          seen
          (record counted { bytes = counted.bytes + file_size contents })
  one_file path contents seen counted valid names bytes grown noded fits = record {
    grown = record {
      counted = grown.counted;
      bounded = grown.bounded;
      distinct = grown.distinct;
      kept = grown.kept;
    };
    sized = omega (arith, bytes);
    within = fits;
    named = λ p. rw names (ground arith);
    covers = λ p a. let (h, k) = rw names at a in ((h, tt), k);
    noded = (noded, tt);
    canonical = (valid, tt);
  }

  counted_file :
      (path : Text) (contents : Contents) (seen seen' : Seen)
      → IsCanonical path × (length (encode path) ≤ limits path_bytes)
      → seen.bytes ≤ limits workspace_bytes
      → (add_nodes
            (limits workspace_entries)
            (path_nodes path)
            (record seen { names = path ∷ seen.names })
          >>= add_contents limits path contents)
        ≡ ok seen'
      → Captured limits ((path, contents) ∷ []) seen seen'
  counted_file path contents seen seen' valid low h =
      let start : Seen = record seen { names = path ∷ seen.names } in
      let (counted, e, k) =
        bind-eq-ok (add_nodes (limits workspace_entries) (path_nodes path) start) _ h in
      let (names, bytes, grown, noded) =
        add_nodes-Grown (limits workspace_entries) (path_nodes path) start counted e in
      let (same_seen, fits) =
        add_contents_ok path contents counted seen' (omega (arith, bytes)) k in
      subst (Captured limits ((path, contents) ∷ []) seen) same_seen
        (one_file path contents seen counted valid names bytes grown noded fits)

  add_file-Captured :
      (path : Text) (contents : Contents) (seen seen' : Seen)
      → seen.bytes ≤ limits workspace_bytes
      → add_file limits path contents seen ≡ ok seen'
      → Captured limits ((path, contents) ∷ []) seen seen'
  unfolding add_file
  add_file-Captured path contents seen seen' low h =
      let (checked, e, k) = bind-eq-ok (check_path (text path) (limits path_bytes)) _ h in
      let accepted = rw (checked_path path (limits path_bytes) e) at e in
      counted_file path contents seen seen' ((check_path_iff path (limits path_bytes)).0 accepted)
        low (rw (checked_path path (limits path_bytes) e) at k)

  Captured-append :
      (file : Text × Contents) (files : Files) (a b c : Seen)
      → Captured limits (file ∷ []) a b
      → Captured limits files b c
      → Captured limits (file ∷ files) a c
  Captured-append file files a b c first rest =
      let g = first.grown in
      let k = rest.grown in
      record {
        grown = record {
          counted = omega (arith, g.counted, k.counted);
          bounded = λ e. k.bounded (g.bounded e);
          distinct = λ e. k.distinct (g.distinct e);
          kept = λ n e. k.kept n (g.kept n e);
        };
        sized = omega (arith, first.sized, rest.sized);
        within = rest.within;
        named = λ p. ground (arith, rest.named p, first.named p);
        covers =
            λ p a. let (h, k) = rest.covers p a in let (f, l) = first.covers p k in ((f.0, h), l);
        noded = (All-map (λ n e. k.kept n e) (path_nodes file.0) first.noded.0, rest.noded);
        canonical = (first.canonical.0, rest.canonical);
      }

  -- A run of files.
  pub add_files-Captured :
      (files : Files) (seen seen' : Seen)
      → seen.bytes ≤ limits workspace_bytes
      → add_files limits files seen ≡ ok seen'
      → Captured limits files seen seen'
  unfolding add_files
  add_files-Captured [] seen seen' low h = subst (Captured limits [] seen) (ok_inj h) (record {
    grown = record { counted = refl; bounded = λ e. e; distinct = λ e. e; kept = λ n e. e };
    sized = omega arith;
    within = low;
    named = λ p. refl;
    covers = λ p a. (tt, a);
    noded = tt;
    canonical = tt;
  })
  add_files-Captured (file ∷ files) seen seen' low h =
      let (next, e, k) = bind-eq-ok (add_file limits file.0 file.1 seen) _ h in
      let first = add_file-Captured file.0 file.1 seen next low e in
      Captured-append file files seen next seen' first
        (add_files-Captured files next seen' first.within k)
