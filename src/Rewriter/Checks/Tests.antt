-- ===== src/Rewriter/Checks/Tests.antt =====
-- Runs of the injected code, and the theorems about it at concrete inputs.
use capnpc_wasm.Common.{ℕ, ◌≡◌, refl, [], ◌∷◌, arith}
use capnpc_wasm.Rewriter.Checks.{check_sequence, charge_sequence}
use capnpc_wasm.Rewriter.Checks.Machine.{Machine, running, trapped, run, step, assemble, Code}
use capnpc_wasm.Rewriter.Checks.Assembly.{check_code, charge_code}
use capnpc_wasm.Rewriter.Checks.Run.{polled, checked, charged}
use capnpc_wasm.Rewriter.Checks.Poll.{
  check_sequence-run, charge_sequence-run, checks, check_sequence_period,
}

-- Two globals, of which the second is the countdown, and two locals.
abbrev machine : ℕ → Machine
machine count = record { stack = 7 ∷ []; globals = 9 ∷ count ∷ []; locals = 1 ∷ 2 ∷ []; polls = 3 }

abbrev go_on : ℕ → ℕ
go_on n = 0

abbrev stop : ℕ → ℕ
stop n = 1

poll_and_restart :
    run 5 go_on (check_code 1 5 65536) (machine 0)
    ≡ running (record { stack = 7 ∷ []; globals = 9 ∷ 65535 ∷ []; locals = 1 ∷ 2 ∷ []; polls = 4 })
unfolding run step
poll_and_restart = refl

poll_and_trap : run 5 stop (check_code 1 5 65536) (machine 0) ≡ trapped
unfolding run step
poll_and_trap = refl

large_copy :
    run 5 go_on (charge_code 1 0 5 65536 10) (record (machine 9) { stack = 8192 ∷ [] })
    ≡ running
        (record { stack = 8192 ∷ []; globals = 9 ∷ 1 ∷ []; locals = 8192 ∷ 2 ∷ []; polls = 3 })
unfolding run step
large_copy = refl

check_sequence-run_example :
    (code : Code) × (check_sequence 1 5 65536 ≡ assemble code)
    × (run 5 go_on code (machine 0) ≡ checked 5 go_on 1 65536 0 (machine 0))
check_sequence-run_example =
    check_sequence-run 1 5 65536 0 go_on (machine 0) refl (omega arith) (omega arith) (omega arith)

charge_sequence-run_example :
    (code : Code) × (charge_sequence 1 0 5 65536 10 ≡ assemble code)
    × (run 5 go_on code (record (machine 9) { stack = 8192 ∷ 7 ∷ [] })
        ≡ charged 5 go_on 1 0 65536 10 8192 9 (record (machine 9) { stack = 8192 ∷ 7 ∷ [] }))
charge_sequence-run_example =
    charge_sequence-run 1 0 5 65536 10 8192 9 go_on (machine 9) refl (omega arith) (omega arith)
      (omega arith) (omega arith)

check_sequence_period_example :
    (code : Code) × (check_sequence 1 5 65536 ≡ assemble code)
    × (checks 5 go_on code 2 (machine 3) ≡ running (record (machine 3) { globals = 9 ∷ 1 ∷ [] }))
    × (checks 5 go_on code 4 (machine 3) ≡ polled 5 go_on 1 65535 (machine 3))
check_sequence_period_example =
    check_sequence_period 1 5 65536 3 go_on (machine 3) refl (omega arith) (omega arith)
      (omega arith) 2 (omega arith)
