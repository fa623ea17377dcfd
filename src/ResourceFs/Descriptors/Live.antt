-- ===== src/ResourceFs/Descriptors/Live.antt =====
-- The count of live descriptors in `boundWasiIO` of sdk/typescript/resource-fs.ts, and its ceiling.
use capnpc_wasm.Common.{
  ℕ, ◌+◌, ◌-◌, ◌%◌, ◌^◌, ◌≤◌, ◌<◌, max, ◌≡◌, refl, Bool, true, false, not, ◌&&◌, ◌⊎◌, inl, inr,
  List, [], ◌∷◌, arith, ltb, leb as le_b, ◌==◌, if◌then◌else◌, get_or,
}
use capnpc_wasm.ResourceFs.Descriptors.{
  maximum_descriptors, Table, count_live, Called, returned, threw, answered, Imports, opened,
  path_open, released, release, Request, opening, releasing, serve, serve_all,
}

abbrev pub one_if : Bool → ℕ
one_if true = 1
one_if false = 0

-- What an import of the shim leaves of `before` slots that hold a descriptor, `plus` more at most.
abbrev pub AddsOne : ℕ → Called → Type 0
AddsOne before (returned ret fds) = count_live fds ≡ before + one_if (ret == 0)
AddsOne before (threw fds) = count_live fds ≤ before + 1

abbrev pub TakesOne : ℕ → Bool → ℕ → Called → Type 0
TakesOne before held fd (returned ret fds) =
    count_live fds + one_if (held && not (get_or fds fd false)) ≡ before
TakesOne before held fd (threw fds) = count_live fds ≤ before

-- The documented behaviour of the shim: path_open fills one slot where it returns 0 and otherwise none;
-- fd_close and fd_renumber empty the slot that they are called on, or leave as many slots filled.
pub record IsTable {Call : Type 0} (shim : Imports Call) : Type 0 where
  pub opens : (call : Call) (fds : List Bool) → AddsOne (count_live fds) (shim.open_file call fds)
  pub releases :
      (call : Call) (fd : ℕ) (fds : List Bool)
      → TakesOne (count_live fds) (get_or fds fd false) fd (shim.release_slot call fd fds)

-- `live` is right, and at most the ceiling or what it was.
record IsServed (before after : Table) : Type 0 where
  counted : after.live ≡ count_live after.fds
  bounded : (after.live ≤ maximum_descriptors) ⊎ (after.live ≤ before.live)

module _ {Call : Type 0} (shim : Imports Call) (law : IsTable shim) where
  path_open-IsServed :
      (call : Call) (result size : ℕ) (table : Table)
      → table.live ≡ count_live table.fds
      → IsServed table (path_open shim call result size table).1
  unfolding path_open
  path_open-IsServed call result size table h =
      choose (ltb size (result % 2 ^ 32 + 4)) (le_b maximum_descriptors table.live) refl
    where
      same : IsServed table table
      same = record { counted = h; bounded = inr (omega arith) }

      called :
          (x : Called)
          → AddsOne (count_live table.fds) x
          → table.live < maximum_descriptors
          → IsServed table (opened shim table.live x).1
      called (threw fds) a l = record { counted = refl; bounded = inl (omega (arith, a, h)) }
      called (returned ret fds) a l = cases (ret == 0) a
        where
          cases :
              (zero_ : Bool)
              → count_live fds ≡ count_live table.fds + one_if zero_
              → IsServed table
                  (record { fds = fds; live = if zero_ then table.live + 1 else table.live })
          cases true a = record { counted = omega (arith, a, h); bounded = inl (omega (arith, l)) }
          cases false a = record { counted = omega (arith, a, h); bounded = inr (omega arith) }

      choose :
          (bad full : Bool)
          → le_b maximum_descriptors table.live ≡ full
          → IsServed table
              (if bad
                then (answered shim.errno_inval, table)
                else if full
                then (answered shim.errno_nfile, table)
                else opened shim table.live (shim.open_file call table.fds)).1
      choose true full e = same
      choose false true e = same
      choose false false e =
          called (shim.open_file call table.fds) (law.opens call table.fds) (ground arith)

  release-IsServed :
      (call : Call) (fd : ℕ) (table : Table)
      → table.live ≡ count_live table.fds
      → IsServed table (release shim call fd table).1
  unfolding release
  release-IsServed call fd table h =
      called (shim.release_slot call fd table.fds) (law.releases call fd table.fds)
    where
      called :
          (x : Called)
          → TakesOne (count_live table.fds) (get_or table.fds fd false) fd x
          → IsServed table (released shim (get_or table.fds fd false) fd table.live x).1
      called (threw fds) a = record { counted = refl; bounded = inr (omega (arith, a, h)) }
      called (returned ret fds) a =
          cases (get_or table.fds fd false) (get_or fds fd false) (ltb 0 table.live) refl a
        where
          cases :
              (held after some_live : Bool)
              → ltb 0 table.live ≡ some_live
              → count_live fds + one_if (held && not after) ≡ count_live table.fds
              → IsServed table (record {
                fds = fds;
                live = if held && (not after && some_live) then table.live - 1 else table.live;
              })
          cases true false true e a = record {
            counted = omega (arith, a, h);
            bounded = inr (omega arith);
          }
          cases true false false e a =
              let none_live : table.live ≡ 0 = ground arith in
              record { counted = omega (arith, a, h, none_live); bounded = inr (omega arith) }
          cases true true l e a = record {
            counted = omega (arith, a, h);
            bounded = inr (omega arith);
          }
          cases false after l e a = record {
            counted = omega (arith, a, h);
            bounded = inr (omega arith);
          }

  -- Whatever calls a guest makes, where the shim's table is used as it is documented, `live` is the
  -- number of slots that hold a descriptor, and that is at most the ceiling, or at most what it was at
  -- first where that was more.
  pub serve_all_live :
      (requests : List (Request Call)) (table : Table)
      → table.live ≡ count_live table.fds
      → ((serve_all shim requests table).live ≡ count_live (serve_all shim requests table).fds)
        × (count_live (serve_all shim requests table).fds ≤ max 1024 (count_live table.fds))
  unfolding serve_all serve
  serve_all_live [] table h = (h, omega arith)
  serve_all_live (opening call result size ∷ requests) table h =
      let next = path_open-IsServed call result size table h in
      let (counted, below) =
        serve_all_live requests (path_open shim call result size table).1 next.counted in
      (
        counted,
        elim next.bounded [
          | inl e ↦ omega (arith, below, e, h, next.counted)
          | inr e ↦ omega (arith, below, e, h, next.counted)
        ],
      )
  serve_all_live (releasing call fd ∷ requests) table h =
      let next = release-IsServed call fd table h in
      let (counted, below) = serve_all_live requests (release shim call fd table).1 next.counted in
      (
        counted,
        elim next.bounded [
          | inl e ↦ omega (arith, below, e, h, next.counted)
          | inr e ↦ omega (arith, below, e, h, next.counted)
        ],
      )
