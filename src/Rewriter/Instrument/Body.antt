-- ===== src/Rewriter/Instrument/Body.antt =====
-- `functionBody` of sdk/typescript/rewriter.ts: a function's body with the checks and charges.
use capnpc_wasm.Common.{
  ℕ, zero, suc, ◌+◌, ◌/◌, ◌^◌, Bool, true, false, not, ◌&&◌, ◌||◌, Option, none, some, List, [],
  ◌∷◌, ltb, leb as le_b, ◌==◌, if◌then◌else◌, length, get_or,
}
use capnpc_wasm.Common.Result.{type_error, type_error_code}
use capnpc_wasm.Rewriter.Reader
use capnpc_wasm.Rewriter.Reader.{Reader}
use capnpc_wasm.Rewriter.Writer.{Writer, new, byte, bytes, u32, append}
use capnpc_wasm.Rewriter.Types.{
  has_code, heap_type, value_type, block_type, memory_argument, simd_immediates,
}
use capnpc_wasm.Rewriter.Checks.{charge_sequence}
use capnpc_wasm.Rewriter.Instrument.Pass.{
  State, Counters, Pass, pure, throw, throw_if, read, get, modify, position, end_position, subarray,
  out_of_fuel, times, ◌>>=◌, ◌>>◌,
}
use capnpc_wasm.Rewriter.Instrument.Parts.{shift, countdown, reference}
use capnpc_wasm.Rewriter.Instrument.Sections.{value_types_of}

-- The local variables of the loop. `charges` has the sequence of each shift that was needed, and
-- `constant` the bit pattern of an i32.
pub record Body : Type 0 where
  pub instructions : Writer
  pub from : ℕ
  pub calls_guest : Bool
  pub constant : Option ℕ
  pub charges : List (ℕ × List ℕ)

-- Two indices, as one value of the read.
abbrev pub u32_only : Pass (Unit {0})
u32_only = do index ← read Reader.u32; pure tt

unfoldable pub group : ℕ → Pass ℕ
group declared = do count ← read Reader.u32; read value_type; pure (declared + count)

-- `copyUntil(position)`
unfoldable pub copy_until : ℕ → Body → Pass Body
copy_until end b = do
  part ← subarray b.from end
  pure (if ltb b.from end then record b { instructions = bytes part b.instructions } else b)

abbrev pub find_charge : ℕ → List (ℕ × List ℕ) → Option (List ℕ)
find_charge unit [] = none
find_charge unit ((shift, sequence) ∷ rest) =
    if shift == unit then some sequence else find_charge unit rest

-- `charge(shift)`: the sequence, and the sequences known after the call.
abbrev pub with_charge : State → ℕ → ℕ → Body → Option (List ℕ) → List ℕ × Body
with_charge s scratch unit b (some sequence) = (sequence, b)
with_charge s scratch unit b none =
    let sequence = charge_sequence (countdown s) scratch s.imported_functions s.interval unit in
    (sequence, record b { charges = (unit, sequence) ∷ b.charges })

unfoldable pub charge : State → ℕ → ℕ → Body → List ℕ × Body
charge s scratch unit b = with_charge s scratch unit b (find_charge unit b.charges)

abbrev pub write : (Writer → Writer) → Body → Body
write f b = record b { instructions = f b.instructions }

abbrev pub counting : (Counters → Counters) → Pass (Unit {0})
counting f = modify λ s. record s { result = f s.result }

abbrev pub is_call_of : Option ℕ → ℕ → Bool
is_call_of none callee = false
is_call_of (some index) callee = index == callee

unfoldable pub loop_header : List ℕ → Body → Pass Body
loop_header check b = do
  read block_type
  here ← position
  copied ← copy_until here b
  counting λ c. record c { loop_checks = c.loop_checks + 1 }
  pure (write (bytes check) (record copied { from = here }))

abbrev pub import_call : List ℕ → ℕ → ℕ → Body → Pass Body
import_call check op callee b = do
  s ← get
  if is_call_of s.exit_function callee
      then pure (write (λ w. byte 0x00 (u32 callee (byte 0x10 w))) b)
      else (do
        counting λ c. record c { import_checks = c.import_checks + 1 }
        let checked = write (λ w. bytes check (u32 callee (byte 0x10 w))) b
        pure (if op == 0x12 then write (byte 0x0f) checked else checked))

unfoldable pub call : List ℕ → ℕ → ℕ → Body → Pass Body
call check at op b = do
  callee ← read Reader.u32
  copied ← copy_until at b
  here ← position
  let moved = record copied { from = here }
  s ← get
  if le_b s.imported_functions callee
      then pure
          (write (λ w. u32 (shift s callee) (byte op w)) (record moved { calls_guest = true }))
      else import_call check op callee moved

unfoldable pub function_reference : ℕ → Body → Pass Body
function_reference at b = do
  index ← read Reader.u32
  copied ← copy_until at b
  here ← position
  target ← reference index
  pure (write (λ w. u32 target (byte 0xd2 w)) (record copied { from = here }))

unfoldable pub catch_clause : Pass (Unit {0})
catch_clause = do
  kind ← read Reader.byte
  throw_if (ltb 3 kind) (type_error "unsupported Wasm catch clause")
  if ltb kind 2 then u32_only else pure tt
  u32_only

-- The immediates after 0xfc.
unfoldable pub bulk_immediates : ℕ → Pass (Unit {0})
bulk_immediates code =
    if le_b code 7
    then pure tt
    else if code == 8 || code == 10 || code == 12 || code == 14
    then (do u32_only; u32_only)
    else if le_b code 17
    then u32_only
    else throw (type_error_code "unsupported Wasm instruction 0xfc" code)

abbrev pub memory_bulk : List ℕ
memory_bulk = 8 ∷ 10 ∷ 11 ∷ []

abbrev pub table_bulk : List ℕ
table_bulk = 12 ∷ 14 ∷ 15 ∷ 17 ∷ []

-- The shift of a tick for a bulk operation.
abbrev pub unit_of : ℕ → Option ℕ
unit_of code =
    if has_code memory_bulk code then some 10 else if has_code table_bulk code then some 4 else none

-- `operand !== undefined && operand >= 0 && operand >> unit === 0`
abbrev pub is_small : Option ℕ → ℕ → Bool
is_small none unit = false
is_small (some v) unit = ltb v (2 ^ 31) && v / 2 ^ unit == 0

abbrev pub charge_bulk : ℕ → ℕ → Option ℕ → Option ℕ → Body → Pass Body
charge_bulk at scratch operand none b = pure b
charge_bulk at scratch operand (some unit) b = if is_small operand unit then pure b else (do
  copied ← copy_until at b
  s ← get
  let charged = charge s scratch unit (record copied { from = at })
  counting λ c. record c { bulk_checks = c.bulk_checks + 1 }
  pure (write (bytes charged.0) charged.1))

unfoldable pub bulk : ℕ → ℕ → Option ℕ → Body → Pass Body
bulk at scratch operand b = do
  code ← read Reader.u32
  bulk_immediates code
  charge_bulk at scratch operand (unit_of code) b

unfoldable pub atomic_immediates : ℕ → Pass (Unit {0})
atomic_immediates code =
    if code == 3
    then read (Reader.skip 1)
    else if le_b code 2 || le_b 0x10 code && le_b code 0x4e
    then read memory_argument
    else throw (type_error_code "unsupported Wasm instruction 0xfe" code)

abbrev pub no_immediates : List ℕ
no_immediates =
    0x00 ∷ 0x01 ∷ 0x05 ∷ 0x0a ∷ 0x0b ∷ 0x0f ∷ 0x19 ∷ 0x1a ∷ 0x1b ∷ 0xd1 ∷ 0xd3 ∷ 0xd4 ∷ []

abbrev pub index_immediate : List ℕ
index_immediate =
    0x07 ∷ 0x08 ∷ 0x09 ∷ 0x0c ∷ 0x0d ∷ 0x18 ∷ 0x20 ∷ 0x21 ∷ 0x22 ∷ 0x23 ∷ 0x24 ∷ 0x25 ∷ 0x26 ∷ 0x3f
    ∷ 0x40 ∷ 0xd5 ∷ 0xd6 ∷ []

-- The immediates of an instruction that is copied as it is.
unfoldable pub immediates : ℕ → Pass (Unit {0})
immediates op =
    if has_code no_immediates op
    then pure tt
    else if has_code (0x02 ∷ 0x04 ∷ 0x06 ∷ []) op
    then read block_type
    else if has_code index_immediate op
    then u32_only
    else if op == 0x0e
    then (do count ← read Reader.u32; times (suc count) (λ u. u32_only) tt)
    else if op == 0x1c
    then (do count ← read Reader.u32; value_types_of count)
    else if op == 0x1f
    then (do read block_type; count ← read Reader.u32; times count (λ u. catch_clause) tt)
    else if op == 0x42
    then read (Reader.leb 10)
    else if op == 0x43
    then read (Reader.skip 4)
    else if op == 0x44
    then read (Reader.skip 8)
    else if op == 0xd0
    then read heap_type
    else if op == 0xfd
    then (do code ← read Reader.u32; read (simd_immediates code))
    else if op == 0xfe
    then (do code ← read Reader.u32; atomic_immediates code)
    else if le_b 0x28 op && le_b op 0x3e
    then read memory_argument
    else throw_if (ltb op 0x45 || ltb 0xc4 op) (type_error_code "unsupported Wasm instruction" op)

-- One round of the loop: the `switch` on an opcode at `at`.
unfoldable pub instruction : List ℕ → ℕ → ℕ → ℕ → Option ℕ → Body → Pass Body
instruction check scratch at op operand b =
    if op == 0x03
    then loop_header check b
    else if op == 0x10 || op == 0x12
    then call check at op b
    else if op == 0xd2
    then function_reference at b
    else if op == 0x11 || op == 0x13
    then (do u32_only; u32_only; pure (record b { calls_guest = true }))
    else if op == 0x14 || op == 0x15
    then (do u32_only; pure (record b { calls_guest = true }))
    else if op == 0x41
    then (do value ← read Reader.s32; pure (record b { constant = some value }))
    else if op == 0xfc
    then bulk at scratch operand b
    else (do immediates op; pure b)

unfoldable pub body_loop : ℕ → List ℕ → ℕ → Body → Pass Body
body_loop zero check scratch b = out_of_fuel
body_loop (suc fuel) check scratch b = do
  at ← position
  end ← end_position
  if le_b end at then pure b else (do
    op ← read Reader.byte
    b' ← instruction check scratch at op b.constant (record b { constant = none })
    body_loop fuel check scratch b')

unfoldable pub head : ℕ → List ℕ → Bool → Writer
head groups part charged =
    if charged
    then byte 0x7f (u32 1 (bytes part (u32 (groups + 1) new)))
    else bytes part (u32 groups new)

abbrev pub max_locals : ℕ
max_locals = 50000

abbrev pub entry_check : List ℕ → Bool → Writer → Pass Writer
entry_check check false w = pure w
entry_check check true w = do
  counting λ c. record c { entry_checks = c.entry_checks + 1 }
  pure (bytes check w)

unfoldable pub function_body : ℕ → List ℕ → Pass Writer
function_body type_ check = do
  groups ← read Reader.u32
  groups_start ← position
  declared ← times groups group 0
  groups_end ← position
  part ← subarray groups_start groups_end
  s ← get
  let scratch = get_or s.param_counts type_ 0 + declared
  end ← end_position
  b ← body_loop (suc end) check scratch (record {
    instructions = new;
    from = groups_end;
    calls_guest = false;
    constant = none;
    charges = [];
  })
  b' ← copy_until end b
  let charged = not (length b'.charges == 0)
  throw_if (charged && ltb max_locals (scratch + 1))
      (type_error "unsupported Wasm function: no local is left for bulk operation sizes")
  w ← entry_check check b'.calls_guest (head groups part charged)
  pure (append b'.instructions w)
