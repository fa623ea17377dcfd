-- ===== src/Interrupt/Tests.antt =====
-- The theorems about job control at concrete inputs.
use capnpc_wasm.Common.{◌≡◌, ◌↔◌, refl, true, false, List, [], ◌∷◌, none, some, String}
use capnpc_wasm.Common.Number.{Number, finite}
use capnpc_wasm.Common.Result.{Error, ok, err, type_error_named}
use capnpc_wasm.Interrupt.{
  JobControl, Observation, Round, timeout_error, abort_error, cancelled, NumberValue, number,
  default_timeout, check_timeout, options, abort_signal, job_options, rejected,
}
use capnpc_wasm.Interrupt.Control.{
  polls, first_cause, stop, polls-first_cause, IsTimeout, check_timeout_iff,
}

abbrev timeout_refused : String → Error
timeout_refused name = type_error_named "must be positive and at most 2147483647" name

abbrev job : JobControl
job = record { deadline = some 100; has_cell = true; token = 5; stopped = false; reason = none }

abbrev quiet : Observation
quiet = record { cell_value = 4; aborted = none; now = 50 }

abbrev late : Observation
late = record { cell_value = 4; aborted = none; now = 100 }

abbrev both : Observation
both = record { cell_value = 5; aborted = some 8; now = 120 }

first_reason :
    polls (quiet ∷ late ∷ both ∷ []) job
    ≡ record job { stopped = true; reason = some timeout_error }
unfolding polls cancelled
first_reason = refl

cell_before_signal :
    polls (quiet ∷ both ∷ late ∷ []) job ≡ record job { stopped = true; reason = some abort_error }
unfolding polls cancelled
cell_before_signal = refl

aborted_signal : job_options (options (abort_signal (some 8)) none) ≡ ok (rejected 8)
unfolding job_options check_timeout
aborted_signal = refl

polls-first_cause_example :
    polls (quiet ∷ late ∷ both ∷ []) job ≡ stop (first_cause job (quiet ∷ late ∷ both ∷ [])) job
polls-first_cause_example = polls-first_cause (quiet ∷ late ∷ both ∷ []) job refl

abbrev too_long : NumberValue
too_long = number (finite false 2147483648 0)

check_timeout_iff_example :
    ((check_timeout too_long "timeoutMs" ≡ ok default_timeout)
      ↔ ((too_long ≡ number default_timeout) × IsTimeout default_timeout))
    × ((check_timeout too_long "timeoutMs" ≡ err (timeout_refused "timeoutMs")) ↔ (
        ((x : Number) → too_long ≡ number x → ¬ IsTimeout x)
        × (timeout_refused "timeoutMs"
            ≡ type_error_named "must be positive and at most 2147483647" "timeoutMs")))
check_timeout_iff_example =
    check_timeout_iff too_long "timeoutMs" default_timeout (timeout_refused "timeoutMs")

refused_timeout : check_timeout too_long "timeoutMs" ≡ err (timeout_refused "timeoutMs")
unfolding check_timeout
refused_timeout = refl

abbrev rounds : List Round
rounds =
    record { polled = quiet; later = 60 }
    ∷ record { polled = quiet; later = 70 }
    ∷ record { polled = late; later = 100 }
    ∷ []
