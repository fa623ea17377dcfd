-- ===== src/Rewriter/Checks/Machine.antt =====
-- The part of WebAssembly that the injected code uses: its instructions, their binary format and
-- their meaning, as the WebAssembly specification gives them. Values are unsigned 32-bit numbers.
use capnpc_wasm.Common.{
  ℕ, suc, ◌+◌, ◌-◌, ◌/◌, ◌%◌, ◌^◌, true, false, List, [], ◌∷◌, ◌++◌, Option, none, some, length,
  get_elem?, set, ltb, leb, ◌==◌, if◌then◌else◌,
}
use capnpc_wasm.Rewriter.Writer
use capnpc_wasm.Rewriter.RoundTrip.Signed.{sleb}

pub data Op : Type 0 where
  global_get global_set local_get local_tee i32_const call : ℕ → Op
  i32_eqz i32_ge_u i32_shr_u i32_sub unreachable : Op

-- Blocks of empty type: `when` has no else branch.
pub data Code : Type 0 where
  done : Code
  ◌▹◌ : Op → Code → Code
  when : Code → Code → Code
  branch : Code → Code → Code → Code

infixr 5 ◌▹◌
unfoldable pub assemble_op : Op → List ℕ
assemble_op (global_get i) = 0x23 ∷ Writer.leb i
assemble_op (global_set i) = 0x24 ∷ Writer.leb i
assemble_op (local_get i) = 0x20 ∷ Writer.leb i
assemble_op (local_tee i) = 0x22 ∷ Writer.leb i
assemble_op (i32_const v) = 0x41 ∷ sleb v
assemble_op (call f) = 0x10 ∷ Writer.leb f
assemble_op i32_eqz = 0x45 ∷ []
assemble_op i32_ge_u = 0x4f ∷ []
assemble_op i32_shr_u = 0x76 ∷ []
assemble_op i32_sub = 0x6b ∷ []
assemble_op unreachable = 0x00 ∷ []

unfoldable pub assemble : Code → List ℕ
assemble done = []
assemble (op ▹ rest) = assemble_op op ++ assemble rest
assemble (when body rest) = 0x04 ∷ 0x40 ∷ (assemble body ++ (0x0b ∷ assemble rest))
assemble (branch body other rest) =
    0x04 ∷ 0x40 ∷ (assemble body ++ (0x05 ∷ (assemble other ++ (0x0b ∷ assemble rest))))

-- `polls` counts the calls of the interrupt import so far.
pub record Machine : Type 0 where
  pub stack : List ℕ
  pub globals : List ℕ
  pub locals : List ℕ
  pub polls : ℕ

-- `invalid` is code that does not validate.
pub data Outcome : Type 0 where
  running : Machine → Outcome
  trapped invalid : Outcome

abbrev pub push : Option ℕ → Machine → Outcome
push none m = invalid
push (some v) m = running (record m { stack = v ∷ m.stack })

abbrev pub pop : List ℕ → (ℕ → List ℕ → Outcome) → Outcome
pop [] next = invalid
pop (v ∷ stack) next = next v stack

abbrev pub assign : List ℕ → ℕ → Outcome → Outcome
assign cells i next = if ltb i (length cells) then next else invalid

abbrev pub then_run : Outcome → (Machine → Outcome) → Outcome
then_run (running m) next = next m
then_run trapped next = trapped
then_run invalid next = invalid

-- `interrupt` is the function index of the import, `answer` what the host returns to each poll.
module _ (interrupt : ℕ) (answer : ℕ → ℕ) where
  unfoldable pub step : Op → Machine → Outcome
  step (global_get i) m = push (get_elem? m.globals i) m
  step (local_get i) m = push (get_elem? m.locals i) m
  step (i32_const v) m = push (some v) m
  step (global_set i) m = pop m.stack λ v stack.
      assign m.globals i (running (record m { stack = stack; globals = set m.globals i v }))
  step (local_tee i) m =
      pop m.stack λ v stack. assign m.locals i (running (record m { locals = set m.locals i v }))
  step (call f) m =
      if f == interrupt
      then running (record m { stack = answer m.polls ∷ m.stack; polls = suc m.polls })
      else invalid
  step i32_eqz m =
      pop m.stack λ v stack. running (record m { stack = (if v == 0 then 1 else 0) ∷ stack })
  step i32_ge_u m = pop m.stack λ y stack.
      pop stack λ x stack'. running (record m { stack = (if leb y x then 1 else 0) ∷ stack' })
  step i32_shr_u m =
      pop m.stack
        λ y stack. pop stack λ x stack'. running (record m { stack = x / 2 ^ (y % 32) ∷ stack' })
  step i32_sub m = pop m.stack λ y stack.
      pop stack λ x stack'. running (record m { stack = (x + 2 ^ 32 - y) % 2 ^ 32 ∷ stack' })
  step unreachable m = trapped

  unfoldable pub run : Code → Machine → Outcome
  unfolding step
  run done m = running m
  run (op ▹ rest) m = then_run (step op m) (run rest)
  run (when body rest) m = pop m.stack λ v stack.
      then_run
        (elim (v == 0) [
          | true ↦ running (record m { stack = stack })
          | false ↦ run body (record m { stack = stack })
        ])
        (run rest)
  run (branch body other rest) m = pop m.stack λ v stack.
      then_run
        (elim (v == 0) [
          | true ↦ run other (record m { stack = stack })
          | false ↦ run body (record m { stack = stack })
        ])
        (run rest)
