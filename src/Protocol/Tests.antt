-- ===== src/Protocol/Tests.antt =====
-- Errors that cross, of sdk/typescript/protocol.ts.
use capnpc_wasm.Common.{Option, ◌≤◌, ◌≡◌, refl, none, some, [], ◌∷◌}
use capnpc_wasm.Limits.Resolve.{output_bytes}
use capnpc_wasm.Protocol.{
  compile, limit, words, kind_name, kind_key, message_key, Key, Value, undefined, text, object,
  plain_object, caused, no_error, compile_error, Cause, Error, dom_exception, type_error,
  thrown_value, Thrown, thrown, encode_error, summarize, error_name, plain_error, no_cause, text_of,
  restore, decode_error, undecoded,
}
use capnpc_wasm.Protocol.Trip.{
  received, crossed, chain, cause_of, decode_error-encode_error, decode_error-short,
}

-- The guest has exceeded a limit, and a text was thrown below.
abbrev exceeded : Thrown
exceeded = thrown (
    compile_error (record {
      message = words "capnp: output exceeds the limit";
      stage = text (words "compiler");
      diagnostics = (words "compiler", words "") ∷ [];
      exit_code = none;
      kind = limit;
      limit = some output_bytes;
      cause = caused (words "LimitError") (words "outputBytes") (no_error (some (words "full")));
    }))

abbrev map_cause_of : Option Error → Option Cause
map_cause_of none = none
map_cause_of (some e) = some (cause_of e)

decode_error-encode_error_example : received (encode_error exceeded) ≡ crossed exceeded
decode_error-encode_error_example = decode_error-encode_error exceeded

-- The cause of the cause has arrived as an Error with its text.
exceeded_causes :
    map_cause_of (received (encode_error exceeded))
    ≡ some (
        caused
          (words "LimitError")
          (words "outputBytes")
          (caused error_name (words "full") no_cause))
unfolding encode_error decode_error summarize text_of restore
exceeded_causes = refl

-- A DOMException of another name arrives as an Error, and a TypeError under another name as a plain
-- TypeError.
no_clone :
    received (encode_error (thrown (dom_exception (words "NotSupportedError") (words "m"))))
    ≡ some (plain_error (words "NotSupportedError") (words "m") no_cause)
unfolding encode_error decode_error summarize text_of restore
no_clone = refl

renamed_type :
    received (encode_error (thrown (type_error (words "Odd") (words "m") no_cause)))
    ≡ some (type_error (words "TypeError") (words "m") no_cause)
unfolding encode_error decode_error summarize text_of restore
renamed_type = refl

-- A value on which String throws.
not_printed : encode_error (thrown_value none) ≡ none
unfolding encode_error
not_printed = refl

-- A reply whose message has no text.
abbrev no_text : Key → Value
no_text kind_key = text (kind_name compile)
no_text message_key = object none (λ key. undefined)
no_text _ = undefined

without_text : decode_error (plain_object no_text) ≡ undecoded
unfolding decode_error text_of restore
without_text = refl

decode_error-short_example : chain (cause_of (decode_error (plain_object no_text))) ≤ 8
decode_error-short_example = decode_error-short (plain_object no_text)
