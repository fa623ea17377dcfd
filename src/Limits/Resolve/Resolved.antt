-- ===== src/Limits/Resolve/Resolved.antt =====
-- What `resolveLimits` of sdk/typescript/limits.ts returns.
use capnpc_wasm.Common.{
  ℕ, ◌≤◌, ◌≡◌, refl, ap, ◌∙◌, sym, Bool, true, false, not, ◌||◌, List, [], ◌∷◌, arith, ltb, ◌==◌,
  if◌then◌else◌, All, Bool-cases, inl, inr,
}
use capnpc_wasm.Common.Number.{whole_part}
use capnpc_wasm.Common.Result.{Result, ok, bind-eq-ok}
use capnpc_wasm.Limits.Resolve.{
  ResourceLimits, default_limits, LimitName, memory_pages, Key, limit, other_key, index, LimitValue,
  undefined, number, no_number, entries, write_limit, resolve_entry, resolve_loop, resolve_limits,
  is_invalid, limit_value,
}

-- The value of a limit after an object's entries: the last that is given for it, not undefined.
unfoldable pub given : LimitName → List (Key × LimitValue) → ℕ → ℕ
given name [] value = value
given name ((key, undefined) ∷ rest) value = given name rest value
given name ((other_key k, v) ∷ rest) value = given name rest value
given name ((limit k, v) ∷ rest) value =
    given name rest (if index k == index name then limit_value v else value)

-- An entry that the loop accepts: undefined, or a safe integer from 0 on for a limit.
abbrev pub is_entry : Key × LimitValue → Bool
is_entry (key, undefined) = true
is_entry (other_key k, v) = false
is_entry (limit k, v) = not (is_invalid v)

abbrev value_of : Result ResourceLimits → ResourceLimits → ResourceLimits
value_of (ok limits) other = limits
value_of _ other = other

resolve_loop-given :
    (list : List (Key × LimitValue)) (limits l : ResourceLimits)
    → resolve_loop list limits ≡ ok l
    → All (λ entry. is_entry entry ≡ true) list
      × ((name : LimitName) → l name ≡ given name list (limits name))
unfolding resolve_loop resolve_entry given write_limit
resolve_loop-given [] limits l h = (tt, λ name. ap (λ r. value_of r limits name) (sym h))
resolve_loop-given ((key, undefined) ∷ rest) limits l h =
    let (k, e) = resolve_loop-given rest limits l h in ((refl, k), e)
resolve_loop-given ((other_key k, number v) ∷ rest) limits l h = absurd cc
resolve_loop-given ((other_key k, no_number) ∷ rest) limits l h = absurd cc
resolve_loop-given ((limit n, no_number) ∷ rest) limits l h = absurd cc
resolve_loop-given ((limit n, number v) ∷ rest) limits l h =
    elim (Bool-cases (is_invalid (number v))) [
      | inl i ↦ absurd (let h' = rw i at h in cc)
      | inr i ↦
          let (k, e) =
            resolve_loop-given rest (write_limit n (whole_part v) limits) l (rw i at h) in
          ((rw i, k), e)
    ]

-- If `resolveLimits` returns limits for an object, every entry of the object is undefined or gives
-- a limit a safe integer that is not negative, each limit is the value given for it and otherwise
-- its default, and memoryPages is from 1 to 65536.
pub resolve_limits-given :
    (list : List (Key × LimitValue)) (l : ResourceLimits)
    → resolve_limits (entries list) ≡ ok l
    → All (λ entry. is_entry entry ≡ true) list
      × ((name : LimitName) → l name ≡ given name list (default_limits name))
      × (1 ≤ l memory_pages)
      × (l memory_pages ≤ 65536)
unfolding resolve_limits
resolve_limits-given list l h =
    let (limits, e, k) = bind-eq-ok (resolve_loop list default_limits) _ h in
    let (valid, values) = resolve_loop-given list default_limits limits e in
    elim (Bool-cases (ltb (limits memory_pages) 1 || ltb 65536 (limits memory_pages))) [
      | inl b ↦ absurd (let k' = rw b at k in cc)
      | inr b ↦
          let same : (name : LimitName) → l name ≡ limits name =
            λ name. ap (λ r. value_of r limits name) (sym (rw b at k)) in
          let low : 1 ≤ limits memory_pages = ground arith in
          let high : limits memory_pages ≤ 65536 = ground arith in
          (
            valid,
            λ name. same name ∙ values name,
            rw (same memory_pages) low,
            rw (same memory_pages) high,
          )
    ]
