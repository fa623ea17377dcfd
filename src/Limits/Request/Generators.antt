-- ===== src/Limits/Request/Generators.antt =====
-- Which lists of generators `validateGenerators` of sdk/typescript/limits.ts accepts.
use capnpc_wasm.Common.{
  ◌≤◌, ◌≡◌, ◌↔◌, refl, ap, ap₂, ◌∙◌, sym, subst, true, false, not, ◌||◌, List, [], ◌∷◌, map, length,
  ltb, All, arith,
}
use capnpc_wasm.Common.Result.{ok, bind-eq-ok, ok_inj, throw_if_ok}
use capnpc_wasm.Limits.Utf8.{Text}
use capnpc_wasm.Limits.Paths.{any}
use capnpc_wasm.Limits.Mounts.{same, has, has_duplicate}
use capnpc_wasm.Limits.Request.{
  Target, named, no_string, targets, same_target, has_duplicate_target, validate_targets,
  validate_generators,
}

any-named :
    (target : Text) (list : List Text)
    → any (same_target (named target)) (map named list) ≡ has list target
any-named target [] = refl
any-named target (first ∷ rest) = ap (λ b. same target first || b) (any-named target rest)

duplicate-named : (list : List Text) → has_duplicate_target (map named list) ≡ has_duplicate list
unfolding has_duplicate_target has_duplicate
duplicate-named [] = refl
duplicate-named (first ∷ rest) = ap₂ ◌||◌ (any-named first rest) (duplicate-named rest)

length-named : (list : List Text) → length (map named list) ≡ length list
length-named [] = refl
length-named (first ∷ rest) = omega (arith, length-named rest)

module _ (supplied : List Text) where
  targets_ok :
      (list : List Target) (result : List Text)
      → validate_targets list supplied ≡ ok result
      → (list ≡ map named result) × All (λ t. has supplied t ≡ true) result
  unfolding validate_targets
  targets_ok [] result h =
      subst (λ r. ([] ≡ map named r) × All (λ t. has supplied t ≡ true) r) (ok_inj h) (refl, tt)
  targets_ok (no_string value ∷ rest) result h = absurd cc
  targets_ok (named target ∷ rest) result h =
      let (known, k) = throw_if_ok (not (has supplied target)) _ _ h in
      let (others, e, k') = bind-eq-ok (validate_targets rest supplied) _ k in
      let (same_rest, all) = targets_ok rest others e in
      subst (λ r. (named target ∷ rest ≡ map named r) × All (λ t. has supplied t ≡ true) r)
        (ok_inj k') (ap (λ l. named target ∷ l) same_rest, (ground arith, all))

  ok_targets :
      (result : List Text)
      → All (λ t. has supplied t ≡ true) result
      → validate_targets (map named result) supplied ≡ ok result
  unfolding validate_targets
  ok_targets [] all = refl
  ok_targets (target ∷ rest) (known, all) = rw (known, ok_targets rest all)

-- `validateGenerators` returns a list exactly if the request holds that list of strings, it has at
-- most four elements, no two of them are the same, and each is a language that was supplied.
pub validate_generators_iff :
    (list : List Target) (supplied result : List Text)
    → (validate_generators (targets list) supplied ≡ ok result) ↔ (
        (list ≡ map named result)
        × (length result ≤ 4)
        × (has_duplicate result ≡ false)
        × All (λ t. has supplied t ≡ true) result)
unfolding validate_generators
validate_generators_iff list supplied result = (forward, backward)
  where
    forward :
        validate_generators (targets list) supplied ≡ ok result
        → (list ≡ map named result)
          × (length result ≤ 4)
          × (has_duplicate result ≡ false)
          × All (λ t. has supplied t ≡ true) result
    forward h =
        let (few, k) = throw_if_ok (ltb 4 (length list)) _ _ h in
        let (distinct, k') = throw_if_ok (has_duplicate_target list) _ _ k in
        let (e, all) = targets_ok supplied list result k' in
        let small : length list ≤ 4 = ground arith in
        (
          e,
          omega (arith, small, ap length e, length-named result),
          sym (duplicate-named result) ∙ rw e at distinct,
          all,
        )

    backward :
        (list ≡ map named result)
          × (length result ≤ 4)
          × (has_duplicate result ≡ false)
          × All (λ t. has supplied t ≡ true) result
        → validate_generators (targets list) supplied ≡ ok result
    backward (e, small, distinct, all) =
        let few : ltb 4 (length result) ≡ false = ground arith in
        rw (e, length-named, few, duplicate-named, distinct) (ok_targets supplied result all)
