-- ===== src/Rewriter/Checks/Run.antt =====
-- What the injected code of sdk/typescript/rewriter.ts does when it runs: it leaves the operands
-- as they are, counts down, and polls the host when the count is used up.
use capnpc_wasm.Common.{
  ℕ, zero, suc, ◌+◌, ◌-◌, ◌/◌, ◌%◌, ◌^◌, ◌≤◌, ◌<◌, ◌≡◌, refl, ap, true, List, [], ◌∷◌, some, arith,
  length, get_elem?, set, leb, ◌==◌, if◌then◌else◌, Bool-cases, lt→ltb, inl, inr,
}
use capnpc_wasm.Rewriter.Checks.Machine.{
  Machine, Outcome, running, trapped, Code, done, ◌▹◌, global_get, global_set, i32_const, i32_sub,
  step, run,
}
use capnpc_wasm.Rewriter.Checks.Assembly.{poll_code, check_code, charge_code}

pub length-get : (xs : List ℕ) (i : ℕ) {v : ℕ} → get_elem? xs i ≡ some v → i < length xs
length-get [] i e = cc
length-get (x ∷ xs) zero e = omega arith
length-get (x ∷ xs) (suc i) e = omega (arith, length-get xs i e)

pub get-set : (xs : List ℕ) (i v : ℕ) → i < length xs → get_elem? (set xs i v) i ≡ some v
get-set [] i v h = absurd (omega arith)
get-set (x ∷ xs) zero v h = refl
get-set (x ∷ xs) (suc i) v h = get-set xs i v (omega arith)

pub set-set : (xs : List ℕ) (i v w : ℕ) → set (set xs i v) i w ≡ set xs i w
set-set [] i v w = refl
set-set (x ∷ xs) zero v w = refl
set-set (x ∷ xs) (suc i) v w = rw (set-set xs i v w)

pub set-get : (xs : List ℕ) (i : ℕ) {v : ℕ} → get_elem? xs i ≡ some v → set xs i v ≡ xs
set-get [] i e = refl
set-get (x ∷ xs) zero e = ground (arith)
set-get (x ∷ xs) (suc i) e = ap (λ t. x ∷ t) (set-get xs i e)

difference : (x y : ℕ) → y ≤ x → x < 2 ^ 32 → (x + 2 ^ 32 - y) % 2 ^ 32 ≡ x - y
difference x y h k = omega arith

module _ (interrupt : ℕ) (answer : ℕ → ℕ) where
  -- A poll: the host's answer decides between a trap and a new countdown, `left`.
  abbrev pub polled : ℕ → ℕ → Machine → Outcome
  polled counter left m =
      if answer m.polls == 0
      then running (record m { globals = set m.globals counter left; polls = suc m.polls })
      else trapped

  poll-run :
      (counter left : ℕ) (m : Machine)
      → counter < length m.globals
      → run interrupt answer (poll_code counter interrupt left) m ≡ polled counter left m
  unfolding run step
  poll-run counter left m h =
      let same : (interrupt == interrupt) ≡ true = ground arith in
      rw same
        (elim (Bool-cases (answer m.polls == 0)) [ inl e ↦ rw (e, lt→ltb _ _ h) | inr e ↦ rw e ])

  count_code : ℕ → Code
  count_code counter = global_get counter ▹ i32_const 1 ▹ i32_sub ▹ global_set counter ▹ done

  count-run :
      (counter count : ℕ) (m : Machine)
      → get_elem? m.globals counter ≡ some count
      → 0 < count
      → count < 2 ^ 32
      → run interrupt answer (count_code counter) m
        ≡ running (record m { globals = set m.globals counter (count - 1) })
  unfolding run step count_code
  count-run counter count m e h k =
      let d : (count + 2 ^ 32 - 1) % 2 ^ 32 ≡ count - 1 = omega arith in
      rw (e, lt→ltb _ _ (length-get m.globals counter e), d)

  -- What the check is to do with a countdown of `count`.
  abbrev pub checked : ℕ → ℕ → ℕ → Machine → Outcome
  checked counter interval count m =
      if count == 0
      then polled counter (interval - 1) m
      else running (record m { globals = set m.globals counter (count - 1) })

  pub check-run :
      (counter interval count : ℕ) (m : Machine)
      → get_elem? m.globals counter ≡ some count
      → count < 2 ^ 32
      → 0 < interval
      → interval < 2 ^ 32
      → run interrupt answer (check_code counter interrupt interval) m
        ≡ checked counter interval count m
  unfolding run step count_code
  check-run counter interval count m e h i j =
      let l = length-get m.globals counter e in
      let reset : Machine = record m {
        globals = set m.globals counter interval;
        polls = suc m.polls;
      } in
      rw e (elim (Bool-cases (count == 0)) [
        | inl z ↦
            rw (z, poll-run counter interval m l)
              (elim (Bool-cases (answer m.polls == 0)) [
                | inl y ↦
                    rw
                      (
                        y,
                        count-run counter interval reset (get-set m.globals counter interval l) i j,
                      )
                      (rw set-set)
                | inr n ↦ rw n
              ])
        | inr n ↦ rw (n, count-run counter count m e (ground arith) h)
      ])

  -- What the charge is to do before a bulk operation of `size`.
  abbrev pub charged : ℕ → ℕ → ℕ → ℕ → ℕ → ℕ → Machine → Outcome
  charged counter scratch interval shift size count m =
      let kept : Machine = record m { locals = set m.locals scratch size } in
      let ticks = size / 2 ^ shift in
      if leb (2 ^ shift) size
      then if leb count ticks
        then polled counter interval kept
        else running (record kept { globals = set m.globals counter (count - ticks) })
      else running kept

  pub charge-run :
      (counter scratch interval shift size count : ℕ) (m : Machine)
      → get_elem? m.globals counter ≡ some count
      → scratch < length m.locals
      → shift < 32
      → count < 2 ^ 32
      → run interrupt answer
          (charge_code counter scratch interrupt interval shift)
          (record m { stack = size ∷ m.stack })
        ≡ charged counter scratch interval shift size count (record m { stack = size ∷ m.stack })
  unfolding run step
  charge-run counter scratch interval shift size count m e s k c =
      let low : shift % 32 ≡ shift = omega arith in
      let l = length-get m.globals counter e in
      let kept : Machine = record m { locals = set m.locals scratch size } in
      let get = get-set m.locals scratch size s in
      rw (lt→ltb _ _ s, low)
        (elim (Bool-cases (leb (2 ^ shift) size)) [
          | inl y ↦
              rw (y, get, low, e)
                (elim (Bool-cases (leb count (size / 2 ^ shift))) [
                  | inl z ↦
                      rw (z, poll-run counter interval kept l)
                        (elim (Bool-cases (answer m.polls == 0)) [
                          | inl q ↦ rw (q, get)
                          | inr q ↦ rw q
                        ])
                  | inr z ↦
                      let sub : (count + 2 ^ 32 - size / 2 ^ shift) % 2 ^ 32
                          ≡ count - size / 2 ^ shift =
                        difference count (size / 2 ^ shift) (ground arith) c in
                      rw (z, e, get, low, sub, lt→ltb _ _ l, get)
                ])
          | inr n ↦ rw (n, get)
        ])
