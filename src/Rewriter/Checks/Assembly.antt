-- ===== src/Rewriter/Checks/Assembly.antt =====
-- The bytes of the injected code as assembled instructions.
use capnpc_wasm.Common.{
  ℕ, zero, suc, ◌+◌, ◌-◌, ◌%◌, ◌^◌, ◌≤◌, ◌<◌, ◌≡◌, ◌∙◌, sym, List, [], ◌∷◌, ◌++◌, append_assoc,
  append-nil, arith, flatten, map, sym,
}
use capnpc_wasm.Rewriter.Writer.{Writer, byte, u32, s32, finish, new, leb}
use capnpc_wasm.Rewriter.Writer.Content.{
  content, IsValid-new, Appends, Appends-IsValid, Appends-trans, byte-Appends, finish-content,
}
use capnpc_wasm.Rewriter.Writer.Encoding.{u32-Appends}
use capnpc_wasm.Rewriter.RoundTrip.Signed.{sleb, sleb_loop, s32-Appends}
use capnpc_wasm.Rewriter.Checks.{check_sequence, charge_sequence, ticks}
use capnpc_wasm.Rewriter.Checks.Machine.{
  Code, done, ◌▹◌, when, branch, global_get, global_set, local_get, local_tee, i32_const, call,
  i32_eqz, i32_ge_u, i32_shr_u, i32_sub, unreachable, assemble, assemble_op,
}

abbrev pub poll_code : ℕ → ℕ → ℕ → Code
poll_code counter interrupt interval =
    call interrupt ▹ when (unreachable ▹ done) (i32_const interval ▹ global_set counter ▹ done)

abbrev pub check_code : ℕ → ℕ → ℕ → Code
check_code counter interrupt interval =
    global_get counter
    ▹ i32_eqz
    ▹ when (poll_code counter interrupt interval)
        (global_get counter ▹ i32_const 1 ▹ i32_sub ▹ global_set counter ▹ done)

abbrev pub charge_code : ℕ → ℕ → ℕ → ℕ → ℕ → Code
charge_code counter scratch interrupt interval shift =
    local_tee scratch
    ▹ i32_const (2 ^ (shift % 32))
    ▹ i32_ge_u
    ▹ when
        (local_get scratch
          ▹ i32_const shift
          ▹ i32_shr_u
          ▹ global_get counter
          ▹ i32_ge_u
          ▹ branch (poll_code counter interrupt interval)
              (global_get counter
                ▹ local_get scratch
                ▹ i32_const shift
                ▹ i32_shr_u
                ▹ i32_sub
                ▹ global_set counter
                ▹ done)
              done)
        (local_get scratch ▹ done)

-- The calls on a writer as data, what each writes and the numbers that it writes so.
data Call : Type 0 where
  byte_call u32_call s32_call : ℕ → Call

abbrev perform : List Call → Writer → Writer
perform [] w = w
perform (byte_call v ∷ calls) w = perform calls (byte v w)
perform (u32_call v ∷ calls) w = perform calls (u32 v w)
perform (s32_call v ∷ calls) w = perform calls (s32 v w)

abbrev emitted : Call → List ℕ
emitted (byte_call v) = v % 256 ∷ []
emitted (u32_call v) = leb v
emitted (s32_call v) = sleb v

abbrev Fits : List Call → Type 0
Fits [] = Unit
Fits (byte_call v ∷ calls) = Fits calls
Fits (u32_call v ∷ calls) = Fits calls
Fits (s32_call v ∷ calls) = (v < 2 ^ 32) × Fits calls

call_after :
    (xs ys : List ℕ) (calls : List Call) (u v : Writer)
    → Appends xs u v
    → Appends ys v (perform calls v)
    → Appends (xs ++ ys) u (perform calls v)
call_after xs ys calls u v a b = Appends-trans xs ys u v (perform calls v) a b

perform-Appends :
    (calls : List Call) (w : Writer)
    → Fits calls
    → Appends (flatten (map emitted calls)) w (perform calls w)
perform-Appends [] w h = record { written = sym (append-nil (content w)); grown = omega arith }
perform-Appends (byte_call v ∷ calls) w h =
    call_after (v % 256 ∷ []) _ calls w _ (byte-Appends v w) (perform-Appends calls _ h)
perform-Appends (u32_call v ∷ calls) w h =
    call_after (leb v) _ calls w _ (u32-Appends v w) (perform-Appends calls _ h)
perform-Appends (s32_call v ∷ calls) w (k, h) =
    call_after (sleb v) _ calls w _ (s32-Appends v w k) (perform-Appends calls _ h)

finish-perform :
    (calls : List Call) → Fits calls → finish (perform calls new) ≡ flatten (map emitted calls)
unfolding content
finish-perform calls h =
    let a = perform-Appends calls new h in
    finish-content (perform calls new) (Appends-IsValid _ new _ a IsValid-new) ∙ a.written

check_calls : ℕ → ℕ → ℕ → List Call
check_calls counter interrupt interval =
    byte_call 0x23
    ∷ u32_call counter
    ∷ byte_call 0x45
    ∷ byte_call 0x04
    ∷ byte_call 0x40
    ∷ byte_call 0x10
    ∷ u32_call interrupt
    ∷ byte_call 0x04
    ∷ byte_call 0x40
    ∷ byte_call 0x00
    ∷ byte_call 0x0b
    ∷ byte_call 0x41
    ∷ s32_call interval
    ∷ byte_call 0x24
    ∷ u32_call counter
    ∷ byte_call 0x0b
    ∷ byte_call 0x23
    ∷ u32_call counter
    ∷ byte_call 0x41
    ∷ byte_call 0x01
    ∷ byte_call 0x6b
    ∷ byte_call 0x24
    ∷ u32_call counter
    ∷ []

charge_calls : ℕ → ℕ → ℕ → ℕ → ℕ → List Call
charge_calls counter scratch interrupt interval shift =
    byte_call 0x22
    ∷ u32_call scratch
    ∷ byte_call 0x41
    ∷ s32_call (2 ^ (shift % 32))
    ∷ byte_call 0x4f
    ∷ byte_call 0x04
    ∷ byte_call 0x40
    ∷ byte_call 0x20
    ∷ u32_call scratch
    ∷ byte_call 0x41
    ∷ s32_call shift
    ∷ byte_call 0x76
    ∷ byte_call 0x23
    ∷ u32_call counter
    ∷ byte_call 0x4f
    ∷ byte_call 0x04
    ∷ byte_call 0x40
    ∷ byte_call 0x10
    ∷ u32_call interrupt
    ∷ byte_call 0x04
    ∷ byte_call 0x40
    ∷ byte_call 0x00
    ∷ byte_call 0x0b
    ∷ byte_call 0x41
    ∷ s32_call interval
    ∷ byte_call 0x24
    ∷ u32_call counter
    ∷ byte_call 0x05
    ∷ byte_call 0x23
    ∷ u32_call counter
    ∷ byte_call 0x20
    ∷ u32_call scratch
    ∷ byte_call 0x41
    ∷ s32_call shift
    ∷ byte_call 0x76
    ∷ byte_call 0x6b
    ∷ byte_call 0x24
    ∷ u32_call counter
    ∷ byte_call 0x0b
    ∷ byte_call 0x0b
    ∷ byte_call 0x20
    ∷ u32_call scratch
    ∷ []

-- `checkSequence` emits the binary format of `check_code`.
pub check_sequence-assemble :
    (counter interrupt interval : ℕ)
    → interval < 2 ^ 32
    → check_sequence counter interrupt interval ≡ assemble (check_code counter interrupt interval)
unfolding check_sequence assemble assemble_op check_calls sleb sleb_loop
check_sequence-assemble counter interrupt interval h =
    finish-perform (check_calls counter interrupt interval) (h, tt) ∙ simp append_assoc

power_le : (n k : ℕ) → 2 ^ n ≤ 2 ^ (n + k)
power_le n zero = let e : n + 0 ≡ n = omega arith in rw e (omega arith)
power_le n (suc k) =
    let e : n + suc k ≡ suc (n + k) = omega arith in rw e (omega (arith, power_le n k))

below_32 : (n : ℕ) → n < 32 → 2 ^ n < 2 ^ 32
below_32 n h =
    let e : n + (31 - n) ≡ 31 = omega arith in omega (arith, rw e at (power_le n (31 - n)))

-- `chargeSequence` emits the binary format of `charge_code`.
pub charge_sequence-assemble :
    (counter scratch interrupt interval shift : ℕ)
    → interval < 2 ^ 32
    → shift < 2 ^ 32
    → charge_sequence counter scratch interrupt interval shift
      ≡ assemble (charge_code counter scratch interrupt interval shift)
unfolding charge_sequence ticks assemble assemble_op charge_calls
charge_sequence-assemble counter scratch interrupt interval shift h k =
    finish-perform (charge_calls counter scratch interrupt interval shift)
      (below_32 (shift % 32) (omega arith), (k, (h, (k, tt))))
    ∙ simp append_assoc
