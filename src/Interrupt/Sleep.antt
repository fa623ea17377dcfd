-- ===== src/Interrupt/Sleep.antt =====
-- `JobControl.sleep` of sdk/typescript/interrupt.ts: when it wakes.
use capnpc_wasm.Common.{ℕ, Bool, ◌||◌, List, [], ◌∷◌, Option, none, some, leb, if◌then◌else◌}
use capnpc_wasm.Interrupt.{JobControl, Round, is_some}
use capnpc_wasm.Interrupt.Control.{cause, stop}

-- The loop ends in this round: the job has a cause to stop, or the time is over.
unfoldable pub ends : ℕ → JobControl → Round → Bool
ends until control round = is_some (cause control round.polled) || leb until round.later

-- The control after the first round that ends the loop.
unfoldable pub woken : ℕ → List Round → JobControl → Option JobControl
unfolding ends
woken until [] control = none
woken until (round ∷ rounds) control =
    let rest = woken until rounds control in
    if ends until control round then some (stop (cause control round.polled) control) else rest
