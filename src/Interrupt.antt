-- ===== src/Interrupt.antt =====
-- sdk/typescript/interrupt.ts: a job's deadline and cancellation, and the check of its options.
-- The clock, the shared cell and the signal are read through an observation for each poll.
use capnpc_wasm.Common.{
  ℕ, suc, ◌+◌, ◌-◌, min, Bool, true, false, not, ◌&&◌, ◌||◌, List, [], ◌∷◌, Option, none, some,
  String, ltb, leb, ◌==◌, if◌then◌else◌,
}
use capnpc_wasm.Common.Number.{Number, nan, infinite, finite, is_finite, le_zero, gt}
use capnpc_wasm.Common.Result.{
  Error, Result, ok, err, stuck, type_error, range_error, type_error_named, ◌>>=◌, throw_if, ◌>>◌,
}
pub mod Control
pub mod Sleep
mod Tests

-- Why a job stops; `signal_reason` is the signal's own reason, whatever value that is.
pub data Reason : Type 0 where
  timeout_error abort_error : Reason
  signal_reason : ℕ → Reason

-- What one poll reads: element 0 of the cell, the reason of the signal if it is aborted, and the
-- clock.
pub record Observation : Type 0 where
  pub cell_value : ℕ
  pub aborted : Option ℕ
  pub now : ℕ

-- A deadline of `none` is Infinity. `has_cell` tells whether a cell is shared; an observation of
-- a job without a signal has none aborted.
pub record JobControl : Type 0 where
  pub deadline : Option ℕ
  pub has_cell : Bool
  pub token : ℕ
  pub stopped : Bool
  pub reason : Option Reason

unfoldable pub new : Option ℕ → Bool → ℕ → Result JobControl
new deadline has_cell token =
    throw_if (has_cell && token == 0)
      (range_error "a shared cancellation cell needs a nonzero token")
    >> ok (record {
      deadline = deadline;
      has_cell = has_cell;
      token = token;
      stopped = false;
      reason = none;
    })

abbrev pub passed : Option ℕ → ℕ → Bool
passed none now = false
passed (some deadline) now = leb deadline now

abbrev pub is_some {ℓ} : {A : Type ℓ} → Option A → Bool
is_some none = false
is_some (some a) = true

abbrev pub signal_of : Option ℕ → Option Reason
signal_of none = none
signal_of (some reason) = some (signal_reason reason)

-- `cancelled()`: the answer and the control after the call.
unfoldable pub cancelled : Observation → JobControl → Bool × JobControl
cancelled o control =
    if control.stopped
    then (true, control)
    else if control.has_cell && o.cell_value == control.token
    then (true, record control { stopped = true; reason = some abort_error })
    else if is_some o.aborted
    then (true, record control { stopped = true; reason = signal_of o.aborted })
    else if passed control.deadline o.now
    then (true, record control { stopped = true; reason = some timeout_error })
    else (false, control)

-- `throwIfCancelled()` throws the reason.
unfoldable pub throw_if_cancelled : Observation → JobControl → Option (Option Reason) × JobControl
unfolding cancelled
throw_if_cancelled o control =
    let polled = cancelled o control in (if polled.0 then some polled.1.reason else none, polled.1)

-- Both clock reads of `sleep` that bound a deadline.
abbrev pub earliest : ℕ → Option ℕ → ℕ
earliest time none = time
earliest time (some deadline) = min time deadline

-- One round of the loop: what the poll reads, and the clock when `remaining` is computed.
pub record Round : Type 0 where
  pub polled : Observation
  pub later : ℕ

-- The loop of `sleep`, on the rounds that come; `none` is a loop that goes on after them.
unfoldable pub sleep_loop : ℕ → List Round → JobControl → Option JobControl
unfolding cancelled
sleep_loop until [] control = none
sleep_loop until (round ∷ rounds) control =
    let answer = cancelled round.polled control in
    let rest = sleep_loop until rounds answer.1 in
    if answer.0 then some answer.1 else if leb until round.later then some answer.1 else rest

-- `sleep(milliseconds)`; a negative time counts as none.
unfoldable pub sleep : ℕ → ℕ → List Round → JobControl → Option JobControl
sleep milliseconds start rounds control =
    sleep_loop (earliest (start + milliseconds) control.deadline) rounds control

-- A value of type `unknown` where a number is wanted.
pub data NumberValue : Type 0 where
  number : Number → NumberValue
  no_number : NumberValue

unfoldable pub check_timeout : NumberValue → String → Result Number
check_timeout no_number name = err (type_error_named "must be positive and at most 2147483647" name)
check_timeout (number x) name =
    throw_if (not (is_finite x) || le_zero x || gt x 2147483647)
      (type_error_named "must be positive and at most 2147483647" name)
    >> ok x

-- The property `signal`: absent, an AbortSignal with its reason if it is aborted, or anything else.
pub data SignalValue : Type 0 where
  no_signal other_signal : SignalValue
  abort_signal : Option ℕ → SignalValue

-- The property `timeoutMs`: undefined, or a value.
pub data OptionsValue : Type 0 where
  undefined other_options : OptionsValue
  options : SignalValue → Option NumberValue → OptionsValue

-- Accepted options, or the reason that an aborted signal rejects with.
pub data Options : Type 0 where
  accepted : SignalValue → Number → Options
  rejected : ℕ → Options

abbrev pub default_timeout : Number
default_timeout = finite false 30000 0

abbrev pub check_signal : SignalValue → Number → Result Options
check_signal other_signal timeout = err (type_error "signal must be an AbortSignal")
check_signal (abort_signal (some reason)) timeout = ok (rejected reason)
check_signal signal timeout = ok (accepted signal timeout)

abbrev pub timeout_or_default : Option NumberValue → NumberValue
timeout_or_default none = number default_timeout
timeout_or_default (some value) = value

unfoldable pub job_options : OptionsValue → Result Options
unfolding check_timeout
job_options undefined = ok (accepted no_signal default_timeout)
job_options other_options = err (type_error "job options must be an object")
job_options (options signal timeout) = do
  limit ← check_timeout (timeout_or_default timeout) "timeoutMs"
  check_signal signal limit
