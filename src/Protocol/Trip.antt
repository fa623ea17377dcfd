-- ===== src/Protocol/Trip.antt =====
-- What is left of an error that has crossed from the worker to the client.
use capnpc_wasm.Common.{ℕ, zero, suc, ◌≤◌, ◌≡◌, ◌⊎◌, inl, inr, refl, ap, Option, none, some, arith}
use capnpc_wasm.Common.Number.{Number}
use capnpc_wasm.Limits.Resolve.{LimitName}
use capnpc_wasm.Protocol.{
  compile, type_, range, cancel, error_, Text, kind_name, failure_name, limit_name, error_name,
  abort_name, timeout_name, digits, objects, after, words, Key, name_key, message_key, cause_key,
  kind_key, Value, undefined, text, number, other, array, object, Cause, no_cause, caused, no_error,
  Error, compile_error, dom_exception, type_error, range_error, plain_error, Thrown, thrown,
  thrown_value, plain_object, summary, summarize, map_value, number_or, limit_or, with_cause,
  with_name, compile_fields, dom_kind, encode_error, text_of, restore, restored, exit_code_of,
  limit_of, decoded, by_kind, cancel_error, reported, decode_error,
}

-- A chain of causes down to a depth, as plain errors; a cause that is no error becomes an Error with
-- its text, and there is no chain where String throws on it.
abbrev pub link : Text → Text → Option Cause → Option Cause
link name message none = none
link name message (some reason) = some (caused name message reason)

abbrev pub shown_cause : Option Text → Option Cause
shown_cause none = none
shown_cause (some shown) = some (caused error_name shown no_cause)

abbrev pub cut : Cause → ℕ → Option Cause
cut reason zero = some no_cause
cut no_cause (suc depth) = some no_cause
cut (caused name message reason) (suc depth) = link name message (cut reason depth)
cut (no_error shown) (suc depth) = shown_cause shown

abbrev pub map_cause : (Cause → Error) → Option Cause → Option Error
map_cause f none = none
map_cause f (some reason) = some (f reason)

abbrev pub shown_error : Option Text → Option Error
shown_error none = none
shown_error (some shown) = some (plain_error error_name shown no_cause)

-- A DOMException by a name other than the two of a cancellation becomes an Error by its name.
abbrev pub crossed_dom : Text → Text → Error
crossed_dom timeout_name message = dom_exception timeout_name message
crossed_dom abort_name message = dom_exception abort_name message
crossed_dom name message = plain_error name message no_cause

-- What is to arrive: the error with the chain of its causes cut. A TypeError and a RangeError arrive
-- with the name of their class.
abbrev pub crossed : Thrown → Option Error
crossed (thrown (compile_error e)) =
    map_cause (λ reason. compile_error (record e { cause = reason })) (cut e.cause 4)
crossed (thrown (dom_exception name message)) = some (crossed_dom name message)
crossed (thrown (type_error name message reason)) =
    map_cause (type_error (words "TypeError") message) (cut reason 4)
crossed (thrown (range_error name message reason)) =
    map_cause (range_error (words "RangeError") message) (cut reason 4)
crossed (thrown (plain_error name message reason)) =
    map_cause (plain_error name message) (cut reason 4)
crossed (thrown_value shown) = shown_error shown

restore_undefined : (depth : ℕ) → restore undefined depth ≡ some no_cause
unfolding restore
restore_undefined zero = refl
restore_undefined (suc depth) = refl

-- A summary is refused with the chain, or it is restored to the chain.
abbrev Summarized : Cause → ℕ → ℕ → Type 0
Summarized reason n depth =
    ((summarize reason n ≡ none) × (cut reason n ≡ none))
    ⊎ ((value : Value) × (left : Cause) × (summarize reason n ≡ some value)
        × (cut reason n ≡ some left)
        × (restore value depth ≡ some left))

summarize-Summarized : (reason : Cause) (n depth : ℕ) → n ≤ depth → Summarized reason n depth
unfolding restore summarize text_of
summarize-Summarized reason zero depth l =
    inr (undefined, no_cause, refl, refl, restore_undefined depth)
summarize-Summarized reason (suc n) zero l = absurd (omega arith)
summarize-Summarized no_cause (suc n) (suc depth) l = inr (undefined, no_cause, refl, refl, refl)
summarize-Summarized (caused name message reason) (suc n) (suc depth) l =
    elim (summarize-Summarized reason n depth (omega arith)) [
      | inl (e, f) ↦ inl (rw e refl, rw f refl)
      | inr (value, left, e, f, g) ↦ inr (
        plain_object (summary name message value),
        caused name message left,
        rw e refl,
        rw f refl,
        rw g refl,
      )
    ]
summarize-Summarized (no_error none) (suc n) (suc depth) l = inl (refl, refl)
summarize-Summarized (no_error (some shown)) (suc n) (suc depth) l = inr (
  plain_object (summary error_name shown undefined),
  caused error_name shown no_cause,
  refl,
  refl,
  rw (restore_undefined depth),
)

exit_code_of-number_or : (code : Option Number) → exit_code_of (number_or code) ≡ code
exit_code_of-number_or none = refl
exit_code_of-number_or (some n) = refl

limit_of-limit_or : (name : Option LimitName) → limit_of (limit_or name) ≡ name
limit_of-limit_or none = refl
limit_of-limit_or (some name) = refl

-- What the client makes of what encodeError gives, where that does not throw.
abbrev pub received : Option Value → Option Error
received sent = map_value decode_error sent

-- An error whose encoding has a summary of its cause, and its decoding the restored one.
received-map_value :
    (fields : Value → Key → Value) (back : Cause → Error) (reason : Cause)
    → ((value : Value) (left : Cause)
        → restore value 8 ≡ some left
        → decode_error (plain_object (fields value)) ≡ back left)
    → received (map_value (λ value. plain_object (fields value)) (summarize reason 4))
      ≡ map_cause back (cut reason 4)
received-map_value fields back reason h = elim (summarize-Summarized reason 4 8 (omega arith)) [
  | inl (e, f) ↦ rw (e, f)
  | inr (value, left, e, f, g) ↦ rw (e, f) (ap some (h value left g))
]

decode_error-dom :
    (name message : Text)
    → decode_error (plain_object (with_name (dom_kind name) name message undefined))
      ≡ crossed_dom name message
unfolding decode_error text_of
decode_error-dom (kind_name tag) message = rw (restore_undefined 8)
decode_error-dom (failure_name known) message = rw (restore_undefined 8)
decode_error-dom (limit_name name) message = rw (restore_undefined 8)
decode_error-dom error_name message = rw (restore_undefined 8)
decode_error-dom abort_name message = rw (restore_undefined 8)
decode_error-dom timeout_name message = rw (restore_undefined 8)
decode_error-dom (digits n) message = rw (restore_undefined 8)
decode_error-dom (objects n) message = rw (restore_undefined 8)
decode_error-dom (after fixed shown) message = rw (restore_undefined 8)
decode_error-dom (words shown) message = rw (restore_undefined 8)

-- Whatever is thrown in the worker, encodeError throws itself where String throws on it, or on one of
-- its four nearest causes, and otherwise the client has: a CompileError with the same fields; a
-- TypeError or a RangeError with the same message, by the name of its class; a DOMException that is an
-- AbortError or a TimeoutError, with the same message; and an Error with the same name and message for
-- any other error, other DOMExceptions among them, or with the text of a value that is no error. Its
-- causes are the four nearest ones, each as an Error with the same name and message.
pub decode_error-encode_error : (cause : Thrown) → received (encode_error cause) ≡ crossed cause
unfolding decode_error encode_error text_of
decode_error-encode_error (thrown (compile_error e)) =
    received-map_value (compile_fields e) (λ reason. compile_error (record e { cause = reason }))
      e.cause λ value left h. rw (h, exit_code_of-number_or e.exit_code, limit_of-limit_or e.limit)
decode_error-encode_error (thrown (dom_exception name message)) =
    ap some (decode_error-dom name message)
decode_error-encode_error (thrown (type_error name message reason)) =
    received-map_value (with_cause type_ message) (type_error (words "TypeError") message) reason
      λ value left h. rw h
decode_error-encode_error (thrown (range_error name message reason)) =
    received-map_value (with_cause range message) (range_error (words "RangeError") message) reason
      λ value left h. rw h
decode_error-encode_error (thrown (plain_error name message reason)) =
    received-map_value (with_name error_ name message) (plain_error name message) reason
      λ value left h. rw h
decode_error-encode_error (thrown_value none) = refl
decode_error-encode_error (thrown_value (some shown)) = rw (restore_undefined 8)

abbrev pub chain : Cause → ℕ
chain no_cause = 0
chain (caused name message reason) = suc (chain reason)
chain (no_error shown) = 1

abbrev pub cause_of : Error → Cause
cause_of (compile_error e) = e.cause
cause_of (dom_exception name message) = no_cause
cause_of (type_error name message reason) = reason
cause_of (range_error name message reason) = reason
cause_of (plain_error name message reason) = reason

-- A chain of errors that is this long at most.
abbrev IsShort : ℕ → Option Cause → Type 0
IsShort depth none = Unit
IsShort depth (some reason) = chain reason ≤ depth

restored-IsShort :
    (name : Value) (message : Option Text) (reason : Option Cause) (depth : ℕ)
    → IsShort depth reason
    → IsShort (suc depth) (restored name message reason)
restored-IsShort name none reason depth h = tt
restored-IsShort name (some message) none depth h = tt
restored-IsShort name (some message) (some reason) depth h = omega (arith, h)

restore-IsShort : (value : Value) (depth : ℕ) → IsShort depth (restore value depth)
unfolding restore
restore-IsShort value zero = omega arith
restore-IsShort (object shown fields) (suc depth) =
    restored-IsShort (fields name_key) (text_of (fields message_key))
      (restore (fields cause_key) depth) depth (restore-IsShort (fields cause_key) depth)
restore-IsShort (array diagnostics) (suc depth) = omega arith
restore-IsShort undefined (suc depth) = omega arith
restore-IsShort (text shown) (suc depth) = omega arith
restore-IsShort (number n) (suc depth) = omega arith
restore-IsShort (other shown) (suc depth) = omega arith

cancel_error-short :
    (name : Value) (message : Text) → chain (cause_of (cancel_error name message)) ≡ 0
cancel_error-short undefined message = refl
cancel_error-short (text (kind_name tag)) message = refl
cancel_error-short (text (failure_name known)) message = refl
cancel_error-short (text (limit_name name)) message = refl
cancel_error-short (text error_name) message = refl
cancel_error-short (text abort_name) message = refl
cancel_error-short (text timeout_name) message = refl
cancel_error-short (text (digits n)) message = refl
cancel_error-short (text (objects n)) message = refl
cancel_error-short (text (after fixed shown)) message = refl
cancel_error-short (text (words shown)) message = refl
cancel_error-short (number n) message = refl
cancel_error-short (other shown) message = refl
cancel_error-short (array diagnostics) message = refl
cancel_error-short (object shown fields) message = refl

by_kind-short :
    (tag : Value) (fields : Key → Value) (message : Text) (reason : Cause)
    → chain (cause_of (by_kind tag fields message reason)) ≤ chain reason
by_kind-short undefined fields message reason = omega arith
by_kind-short (text (kind_name compile)) fields message reason = omega arith
by_kind-short (text (kind_name type_)) fields message reason = omega arith
by_kind-short (text (kind_name range)) fields message reason = omega arith
by_kind-short (text (kind_name cancel)) fields message reason =
    omega (arith, cancel_error-short (fields name_key) message)
by_kind-short (text (kind_name error_)) fields message reason = omega arith
by_kind-short (text (failure_name known)) fields message reason = omega arith
by_kind-short (text (limit_name name)) fields message reason = omega arith
by_kind-short (text error_name) fields message reason = omega arith
by_kind-short (text abort_name) fields message reason = omega arith
by_kind-short (text timeout_name) fields message reason = omega arith
by_kind-short (text (digits n)) fields message reason = omega arith
by_kind-short (text (objects n)) fields message reason = omega arith
by_kind-short (text (after fixed shown)) fields message reason = omega arith
by_kind-short (text (words shown)) fields message reason = omega arith
by_kind-short (number n) fields message reason = omega arith
by_kind-short (other shown) fields message reason = omega arith
by_kind-short (array diagnostics) fields message reason = omega arith
by_kind-short (object shown inner) fields message reason = omega arith

decoded-short :
    (fields : Key → Value) (message : Option Text) (reason : Option Cause)
    → IsShort 8 reason
    → chain (cause_of (decoded fields message reason)) ≤ 8
decoded-short fields none reason h = omega arith
decoded-short fields (some message) none h = omega arith
decoded-short fields (some message) (some reason) h =
    omega (arith, h, by_kind-short (fields kind_key) fields message reason)

reported-short : (shown : Option Text) → chain (cause_of (reported shown)) ≤ 8
reported-short none = omega arith
reported-short (some shown) = omega arith

-- Whatever the reply is, the error that the client makes of it has a chain of eight causes at most.
pub decode_error-short : (reply : Value) → chain (cause_of (decode_error reply)) ≤ 8
unfolding decode_error
decode_error-short undefined = reported-short (text_of undefined)
decode_error-short (text shown) = reported-short (text_of (text shown))
decode_error-short (number n) = reported-short (text_of (number n))
decode_error-short (other shown) = reported-short (text_of (other shown))
decode_error-short (array diagnostics) = omega arith
decode_error-short (object shown fields) =
    decoded-short fields (text_of (fields message_key)) (restore (fields cause_key) 8)
      (restore-IsShort (fields cause_key) 8)
