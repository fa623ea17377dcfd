-- ===== src/Rewriter/Checks/Poll.antt =====
-- The injected code as a whole: the bytes that sdk/typescript/rewriter.ts emits with what they do,
-- and how often a run of checks polls the host.
use capnpc_wasm.Common.{
  ℕ, zero, suc, ◌-◌, ◌^◌, ◌≤◌, ◌<◌, ◌≡◌, ◌∷◌, some, arith, length, get_elem?, set, false, inl, inr,
  Bool-cases, ◌==◌,
}
use capnpc_wasm.Rewriter.Checks.{check_sequence, charge_sequence}
use capnpc_wasm.Rewriter.Checks.Machine.{Machine, Outcome, running, Code, assemble, run, then_run}
use capnpc_wasm.Rewriter.Checks.Assembly.{
  check_code, charge_code, check_sequence-assemble, charge_sequence-assemble,
}
use capnpc_wasm.Rewriter.Checks.Run.{
  polled, checked, charged, check-run, charge-run, get-set, set-get, length-get, set-set,
}

-- `checkSequence` emits the binary format of code that, in any state with the countdown at
-- `count`, keeps the operand stack and the locals, takes one from the countdown while it is not
-- zero, and at zero polls the host once: it traps on a nonzero answer and otherwise restarts the
-- countdown at `interval`, less one.
pub check_sequence-run :
    (counter interrupt interval count : ℕ) (answer : ℕ → ℕ) (m : Machine)
    → get_elem? m.globals counter ≡ some count
    → count < 2 ^ 32
    → 0 < interval
    → interval < 2 ^ 32
    → (code : Code) × (check_sequence counter interrupt interval ≡ assemble code)
      × (run interrupt answer code m ≡ checked interrupt answer counter interval count m)
check_sequence-run counter interrupt interval count answer m e h i j = (
  check_code counter interrupt interval,
  check_sequence-assemble counter interrupt interval j,
  check-run interrupt answer counter interval count m e h i j,
)

-- `chargeSequence` emits the binary format of code that keeps the operand stack, with the size of
-- a bulk operation on top, and writes only the scratch local. A size below `1 << shift` costs
-- nothing; a larger one costs its ticks, `size >> shift`: they are taken from the countdown if
-- they are below it, so that it stays above zero, and otherwise the host is polled, with a trap on
-- a nonzero answer and the countdown restarted at `interval` on zero.
pub charge_sequence-run :
    (counter scratch interrupt interval shift size count : ℕ) (answer : ℕ → ℕ) (m : Machine)
    → get_elem? m.globals counter ≡ some count
    → scratch < length m.locals
    → shift < 32
    → count < 2 ^ 32
    → interval < 2 ^ 32
    → (code : Code) × (charge_sequence counter scratch interrupt interval shift ≡ assemble code)
      × (run interrupt answer code (record m { stack = size ∷ m.stack })
          ≡ charged interrupt answer counter scratch interval shift size count
              (record m { stack = size ∷ m.stack }))
charge_sequence-run counter scratch interrupt interval shift size count answer m e s k c j = (
  charge_code counter scratch interrupt interval shift,
  charge_sequence-assemble counter scratch interrupt interval shift j (omega arith),
  charge-run interrupt answer counter scratch interval shift size count m e s k c,
)

-- A guest that meets the check `n` times.
unfoldable pub checks : ℕ → (ℕ → ℕ) → Code → ℕ → Machine → Outcome
checks interrupt answer code zero m = running m
checks interrupt answer code (suc n) m =
    then_run (checks interrupt answer code n m) (run interrupt answer code)

module _ (counter interrupt interval count : ℕ) (answer : ℕ → ℕ) (m : Machine)
    (e : get_elem? m.globals counter ≡ some count) (h : count < 2 ^ 32) (i : 0 < interval)
    (j : interval < 2 ^ 32) where
  code : Code
  code = check_code counter interrupt interval

  quiet_checks :
      (n : ℕ)
      → n ≤ count
      → checks interrupt answer code n m
        ≡ running (record m { globals = set m.globals counter (count - n) })
  unfolding checks code
  quiet_checks zero k =
      let z : count - 0 ≡ count = omega arith in rw (z, set-get m.globals counter e)
  quiet_checks (suc n) k =
      let at : Machine = record m { globals = set m.globals counter (count - n) } in
      let get = get-set m.globals counter (count - n) (length-get m.globals counter e) in
      let more : (count - n == 0) ≡ false = ground arith in
      let less : count - n - 1 ≡ count - suc n = omega arith in
      rw (
        quiet_checks n (omega arith),
        check-run interrupt answer counter interval (count - n) at get (omega arith) i j,
        more,
        set-set,
        less,
      )

  last_check :
      checks interrupt answer code (suc count) m ≡ polled interrupt answer counter (interval - 1) m
  unfolding checks code
  last_check =
      let at : Machine = record m { globals = set m.globals counter 0 } in
      let get = get-set m.globals counter 0 (length-get m.globals counter e) in
      let zero_left : count - count ≡ 0 = omega arith in
      rw
        (
          quiet_checks count (omega arith),
          zero_left,
          check-run interrupt answer counter interval 0 at get (omega arith) i j,
        )
        (elim (Bool-cases (answer m.polls == 0)) [ inl q ↦ rw (q, set-set) | inr q ↦ rw q ])

  -- With the countdown at `count`, the next `count` checks only count down, and the one after them
  -- polls the host: it traps or restarts the countdown.
  pub check_sequence_period :
      (n : ℕ)
      → n ≤ count
      → (code : Code) × (check_sequence counter interrupt interval ≡ assemble code)
        × (checks interrupt answer code n m
            ≡ running (record m { globals = set m.globals counter (count - n) }))
        × (checks interrupt answer code (suc count) m
            ≡ polled interrupt answer counter (interval - 1) m)
  unfolding code
  check_sequence_period n k =
      (code, check_sequence-assemble counter interrupt interval j, quiet_checks n k, last_check)
