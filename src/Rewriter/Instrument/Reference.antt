-- ===== src/Rewriter/Instrument/Reference.antt =====
-- What `functionBody` of sdk/typescript/rewriter.ts is to write, one instruction at a time: no span of
-- bytes is put off, and no charge is kept for later.
use capnpc_wasm.Common.{
  ℕ, zero, suc, ◌+◌, ◌%◌, Bool, true, false, ◌||◌, ◌&&◌, Option, none, some, List, [], ◌∷◌, ◌++◌,
  ltb, leb as le_b, ◌==◌, if◌then◌else◌, get_or,
}
use capnpc_wasm.Common.Result.{type_error}
use capnpc_wasm.Rewriter.Reader
use capnpc_wasm.Rewriter.Writer.{leb}
use capnpc_wasm.Rewriter.Types.{block_type}
use capnpc_wasm.Rewriter.Checks.{charge_sequence}
use capnpc_wasm.Rewriter.Instrument.Pass.{
  Pass, pure, throw_if, read, get, position, end_position, subarray, out_of_fuel, times, ◌>>=◌,
  ◌>>◌,
}
use capnpc_wasm.Rewriter.Instrument.Parts.{shift, countdown, reference}
use capnpc_wasm.Rewriter.Instrument.Body.{
  u32_only, group, counting, is_call_of, bulk_immediates, unit_of, is_small, immediates, max_locals,
}

-- The bytes for the instructions read so far, and what is known after them.
pub record Written : Type 0 where
  pub out : List ℕ
  pub guest : Bool
  pub constant : Option ℕ
  pub charged : Bool

abbrev pub also : List ℕ → Written → Written
also piece w = record w { out = w.out ++ piece }

-- An instruction as it stands.
unfoldable pub as_is : ℕ → Written → Pass Written
as_is at w = do here ← position; span ← subarray at here; pure (also span w)

-- A check behind the head of the loop.
unfoldable pub checked_loop : List ℕ → ℕ → Written → Pass Written
checked_loop check at w = do
  read block_type
  here ← position
  span ← subarray at here
  counting λ c. record c { loop_checks = c.loop_checks + 1 }
  pure (also (span ++ check) w)

-- A tail call of an import is a call and, past the check, a return.
abbrev pub checked_import : List ℕ → ℕ → ℕ → Written → Pass Written
checked_import check op callee w = do
  s ← get
  if is_call_of s.exit_function callee
      then pure (also ((0x10 ∷ leb callee) ++ (0x00 ∷ [])) w)
      else (do
        counting λ c. record c { import_checks = c.import_checks + 1 }
        let checked = (0x10 ∷ leb callee) ++ check
        pure (also (if op == 0x12 then checked ++ (0x0f ∷ []) else checked) w))

unfoldable pub checked_call : List ℕ → ℕ → Written → Pass Written
checked_call check op w = do
  callee ← read Reader.u32
  s ← get
  if le_b s.imported_functions callee
      then pure (also ((op % 256) ∷ leb (shift s callee)) (record w { guest = true }))
      else checked_import check op callee w

unfoldable pub renumbered_reference : Written → Pass Written
renumbered_reference w = do
  index ← read Reader.u32
  target ← reference index
  pure (also (0xd2 ∷ leb target) w)

-- The charge stands before the operation.
abbrev pub charged_bulk : ℕ → ℕ → Option ℕ → Option ℕ → Written → Pass Written
charged_bulk at scratch operand none w = as_is at w
charged_bulk at scratch operand (some unit) w = if is_small operand unit then as_is at w else (do
  s ← get
  let sequence = charge_sequence (countdown s) scratch s.imported_functions s.interval unit
  counting λ c. record c { bulk_checks = c.bulk_checks + 1 }
  as_is at (also sequence (record w { charged = true })))

unfoldable pub bulk_operation : ℕ → ℕ → Option ℕ → Written → Pass Written
bulk_operation at scratch operand w = do
  code ← read Reader.u32
  bulk_immediates code
  charged_bulk at scratch operand (unit_of code) w

unfoldable pub rewrite : List ℕ → ℕ → ℕ → ℕ → Option ℕ → Written → Pass Written
rewrite check scratch at op operand w =
    if op == 0x03
    then checked_loop check at w
    else if op == 0x10 || op == 0x12
    then checked_call check op w
    else if op == 0xd2
    then renumbered_reference w
    else if op == 0x11 || op == 0x13
    then (do u32_only; u32_only; as_is at (record w { guest = true }))
    else if op == 0x14 || op == 0x15
    then (do u32_only; as_is at (record w { guest = true }))
    else if op == 0x41
    then (do value ← read Reader.s32; as_is at (record w { constant = some value }))
    else if op == 0xfc
    then bulk_operation at scratch operand w
    else (do immediates op; as_is at w)

unfoldable pub rewrite_loop : ℕ → List ℕ → ℕ → Written → Pass Written
rewrite_loop zero check scratch w = out_of_fuel
rewrite_loop (suc fuel) check scratch w = do
  at ← position
  end ← end_position
  if le_b end at then pure w else (do
    op ← read Reader.byte
    w' ← rewrite check scratch at op w.constant (record w { constant = none })
    rewrite_loop fuel check scratch w')

-- The locals: a group of one i32 is added for a charge.
abbrev pub locals : ℕ → List ℕ → Bool → List ℕ
locals groups part charged =
    if charged then leb (groups + 1) ++ (part ++ (leb 1 ++ (0x7f ∷ []))) else leb groups ++ part

abbrev pub checked_entry : List ℕ → Bool → List ℕ → Pass (List ℕ)
checked_entry check false xs = pure xs
checked_entry check true xs = do
  counting λ c. record c { entry_checks = c.entry_checks + 1 }
  pure (xs ++ check)

unfoldable pub rewritten_body : ℕ → List ℕ → Pass (List ℕ)
rewritten_body type_ check = do
  groups ← read Reader.u32
  groups_start ← position
  declared ← times groups group 0
  groups_end ← position
  part ← subarray groups_start groups_end
  s ← get
  let scratch = get_or s.param_counts type_ 0 + declared
  end ← end_position
  w ←
      rewrite_loop (suc end) check scratch
        (record { out = []; guest = false; constant = none; charged = false })
  throw_if (w.charged && ltb max_locals (scratch + 1))
      (type_error "unsupported Wasm function: no local is left for bulk operation sizes")
  xs ← checked_entry check w.guest (locals groups part w.charged)
  pure (xs ++ w.out)
