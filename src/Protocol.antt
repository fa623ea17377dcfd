-- ===== src/Protocol.antt =====
-- sdk/typescript/protocol.ts: how an error crosses from the worker to the client, and what the client
-- makes of any reply. A finite chain of causes stands for a cyclic one too, since both are cut.
pub mod Trip
mod Tests
use capnpc_wasm.Common.{ℕ, zero, suc, String, Option, none, some, List, [], length}
use capnpc_wasm.Common.Number.{Number}
use capnpc_wasm.Limits.Resolve.{LimitName}

-- The values of `kind` and of `failure`.
pub data Kind : Type 0 where
  compile type_ range cancel error_ : Kind

pub data FailureKind : Type 0 where
  exit trap limit protocol : FailureKind

-- A text: one that the code compares with, the print of a number or of an array of so many objects, a
-- text after fixed words, or any other.
pub data Text : Type 0 where
  kind_name : Kind → Text
  failure_name : FailureKind → Text
  limit_name : LimitName → Text
  error_name abort_name timeout_name : Text
  digits : Number → Text
  objects : ℕ → Text
  after : String → Text → Text
  words : String → Text

-- The properties that a reply is read for.
pub data Key : Type 0 where
  kind_key message_key name_key cause_key stage_key diagnostics_key exit_code_key : Key
  failure_key limit_key : Key

-- A value that crossed: an object has what String gives of it, or none where that throws. The elements
-- of an array are diagnostics, a stage and a stderr each, and are not looked at.
pub data Value : Type 0 where
  undefined : Value
  text : Text → Value
  number : Number → Value
  other : Text → Value
  array : List (Text × Text) → Value
  object : Option Text → (Key → Value) → Value

-- The cause of an error: none, an error by its name, message and cause, or another value by what
-- String gives of it, or none where String throws.
pub data Cause : Type 0 where
  no_cause : Cause
  caused : Text → Text → Cause → Cause
  no_error : Option Text → Cause

-- The fields of a CompileError.
pub record CompileError : Type 0 where
  pub message : Text
  pub stage : Value
  pub diagnostics : List (Text × Text)
  pub exit_code : Option Number
  pub kind : FailureKind
  pub limit : Option LimitName
  pub cause : Cause

-- An error, by the classes that the code tells apart: a DOMException by its name and message, and the
-- others by their name, message and cause, which is undefined where there is none. Any other class of
-- errors is a plain error by its name.
pub data Error : Type 0 where
  compile_error : CompileError → Error
  dom_exception : Text → Text → Error
  type_error range_error plain_error : Text → Text → Cause → Error

-- What is thrown: an error, or another value by what String gives of it.
pub data Thrown : Type 0 where
  thrown : Error → Thrown
  thrown_value : Option Text → Thrown

abbrev pub cause_depth : ℕ
cause_depth = 4

abbrev pub decode_depth : ℕ
decode_depth = 8

abbrev pub plain_object : (Key → Value) → Value
plain_object fields = object (some (words "[object Object]")) fields

abbrev pub summary : Text → Text → Value → Key → Value
summary name message rest name_key = text name
summary name message rest message_key = text message
summary name message rest cause_key = rest
summary name message rest _ = undefined

-- `none` is a call that throws, since String does.
abbrev pub map_value {ℓ} : {B : Type ℓ} → (Value → B) → Option Value → Option B
map_value f none = none
map_value f (some value) = some (f value)

abbrev pub shown_as : (Text → Value) → Option Text → Option Value
shown_as f none = none
shown_as f (some shown) = some (f shown)

unfoldable pub summarize : Cause → ℕ → Option Value
summarize reason zero = some undefined
summarize no_cause (suc depth) = some undefined
summarize (caused name message reason) (suc depth) =
    map_value (λ rest. plain_object (summary name message rest)) (summarize reason depth)
summarize (no_error shown) (suc depth) =
    shown_as (λ message. plain_object (summary error_name message undefined)) shown

abbrev pub number_or : Option Number → Value
number_or none = undefined
number_or (some n) = number n

abbrev pub limit_or : Option LimitName → Value
limit_or none = undefined
limit_or (some name) = text (limit_name name)

-- The object literals of encodeError.
abbrev pub with_cause : Kind → Text → Value → Key → Value
with_cause tag message reason kind_key = text (kind_name tag)
with_cause tag message reason message_key = text message
with_cause tag message reason cause_key = reason
with_cause tag message reason _ = undefined

abbrev pub with_name : Kind → Text → Text → Value → Key → Value
with_name tag name message reason name_key = text name
with_name tag name message reason key = with_cause tag message reason key

abbrev pub compile_fields : CompileError → Value → Key → Value
compile_fields e reason stage_key = e.stage
compile_fields e reason diagnostics_key = array e.diagnostics
compile_fields e reason exit_code_key = number_or e.exit_code
compile_fields e reason failure_key = text (failure_name e.kind)
compile_fields e reason limit_key = limit_or e.limit
compile_fields e reason key = with_cause compile e.message reason key

-- A DOMException is a cancellation by two of its names; by any other it is an Error, without a cause.
abbrev pub dom_kind : Text → Kind
dom_kind timeout_name = cancel
dom_kind abort_name = cancel
dom_kind _ = error_

unfoldable pub encode_error : Thrown → Option Value
encode_error (thrown (compile_error e)) =
    map_value (λ reason. plain_object (compile_fields e reason)) (summarize e.cause cause_depth)
encode_error (thrown (dom_exception name message)) =
    some (plain_object (with_name (dom_kind name) name message undefined))
encode_error (thrown (type_error name message reason)) =
    map_value (λ reason. plain_object (with_cause type_ message reason))
      (summarize reason cause_depth)
encode_error (thrown (range_error name message reason)) =
    map_value (λ reason. plain_object (with_cause range message reason))
      (summarize reason cause_depth)
encode_error (thrown (plain_error name message reason)) =
    map_value (λ reason. plain_object (with_name error_ name message reason))
      (summarize reason cause_depth)
encode_error (thrown_value shown) =
    shown_as (λ message. plain_object (with_name error_ error_name message undefined)) shown

-- `named(error, name)` of a new Error: the name that it has.
abbrev pub named : Value → Text
named (text name) = name
named _ = error_name

-- `text(value)`, or none where String throws.
unfoldable pub text_of : Value → Option Text
text_of undefined = some (words "undefined")
text_of (text shown) = some shown
text_of (number n) = some (digits n)
text_of (other shown) = some shown
text_of (array diagnostics) = some (objects (length diagnostics))
text_of (object shown fields) = shown

abbrev pub restored : Value → Option Text → Option Cause → Option Cause
restored name (some message) (some reason) = some (caused (named name) message reason)
restored name _ _ = none

-- An array has none of the properties of a summary: their texts are "undefined".
unfoldable pub restore : Value → ℕ → Option Cause
restore value zero = some no_cause
restore (object shown fields) (suc depth) =
    restored (fields name_key) (text_of (fields message_key)) (restore (fields cause_key) depth)
restore (array diagnostics) (suc depth) = some (caused error_name (words "undefined") no_cause)
restore _ (suc depth) = some no_cause

abbrev pub exit_code_of : Value → Option Number
exit_code_of (number n) = some n
exit_code_of _ = none

abbrev pub limit_of : Value → Option LimitName
limit_of (text (limit_name name)) = some name
limit_of _ = none

-- The kind, or the default of the constructor.
abbrev pub failure_of : Value → Option Number → FailureKind
failure_of (text (failure_name known)) code = known
failure_of _ none = trap
failure_of _ (some n) = exit

abbrev pub diagnostics_of : Value → List (Text × Text)
diagnostics_of (array diagnostics) = diagnostics
diagnostics_of _ = []

abbrev pub cancel_error : Value → Text → Error
cancel_error (text abort_name) message = dom_exception abort_name message
cancel_error _ message = dom_exception timeout_name message

-- The switch on `error.kind`.
abbrev pub by_kind : Value → (Key → Value) → Text → Cause → Error
by_kind (text (kind_name compile)) fields message reason = compile_error (record {
  message = message;
  stage = fields stage_key;
  diagnostics = diagnostics_of (fields diagnostics_key);
  exit_code = exit_code_of (fields exit_code_key);
  kind = failure_of (fields failure_key) (exit_code_of (fields exit_code_key));
  limit = limit_of (fields limit_key);
  cause = reason;
})
by_kind (text (kind_name type_)) fields message reason =
    type_error (words "TypeError") message reason
by_kind (text (kind_name range)) fields message reason =
    range_error (words "RangeError") message reason
by_kind (text (kind_name cancel)) fields message reason = cancel_error (fields name_key) message
by_kind _ fields message reason = plain_error (named (fields name_key)) message reason

-- What the catch clause makes of the TypeError that String has thrown.
abbrev pub undecoded : Error
undecoded =
    plain_error error_name (words "worker reply could not be decoded")
      (caused (words "TypeError") (words "Cannot convert object to primitive value") no_cause)

abbrev pub decoded : (Key → Value) → Option Text → Option Cause → Error
decoded fields (some message) (some reason) = by_kind (fields kind_key) fields message reason
decoded fields _ _ = undecoded

-- `worker reported an error: ${text(error)}`, of a value that is no object.
abbrev pub reported : Option Text → Error
reported (some shown) = plain_error error_name (after "worker reported an error: " shown) no_cause
reported none = undecoded

unfoldable pub decode_error : Value → Error
decode_error (object shown fields) =
    decoded fields (text_of (fields message_key)) (restore (fields cause_key) decode_depth)
decode_error (array diagnostics) = plain_error error_name (words "undefined") no_cause
decode_error value = reported (text_of value)
