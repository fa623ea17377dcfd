-- ===== src/Rewriter/Checks.antt =====
-- `checkSequence` and `chargeSequence` of sdk/typescript/rewriter.ts: the code that the rewriter
-- injects to poll the host.
use capnpc_wasm.Common.{ℕ, ◌%◌, ◌^◌, List}
use capnpc_wasm.Rewriter.Writer.{Writer, byte, u32, s32, finish, new}
pub mod Machine
pub mod Assembly
pub mod Run
pub mod Poll
mod Tests

-- A call of a method on the writer, then the next.
infixl 5 ◌▸◌
abbrev pub ◌▸◌ : Writer → (Writer → Writer) → Writer
w ▸ call = call w

unfoldable pub check_sequence : ℕ → ℕ → ℕ → List ℕ
check_sequence counter interrupt interval = finish (
    new
    ▸ byte 0x23
    ▸ u32 counter
    ▸ byte 0x45
    ▸ byte 0x04
    ▸ byte 0x40
    ▸ byte 0x10
    ▸ u32 interrupt
    ▸ byte 0x04
    ▸ byte 0x40
    ▸ byte 0x00
    ▸ byte 0x0b
    ▸ byte 0x41
    ▸ s32 interval
    ▸ byte 0x24
    ▸ u32 counter
    ▸ byte 0x0b
    ▸ byte 0x23
    ▸ u32 counter
    ▸ byte 0x41
    ▸ byte 0x01
    ▸ byte 0x6b
    ▸ byte 0x24
    ▸ u32 counter)

-- The closure `ticks`.
unfoldable pub ticks : ℕ → ℕ → Writer → Writer
ticks scratch shift w = w ▸ byte 0x20 ▸ u32 scratch ▸ byte 0x41 ▸ s32 shift ▸ byte 0x76

-- `1 << shift` is an int32, written here by its bit pattern.
unfoldable pub charge_sequence : ℕ → ℕ → ℕ → ℕ → ℕ → List ℕ
charge_sequence counter scratch interrupt interval shift = finish (
    new
    ▸ byte 0x22
    ▸ u32 scratch
    ▸ byte 0x41
    ▸ s32 (2 ^ (shift % 32))
    ▸ byte 0x4f
    ▸ byte 0x04
    ▸ byte 0x40
    ▸ ticks scratch shift
    ▸ byte 0x23
    ▸ u32 counter
    ▸ byte 0x4f
    ▸ byte 0x04
    ▸ byte 0x40
    ▸ byte 0x10
    ▸ u32 interrupt
    ▸ byte 0x04
    ▸ byte 0x40
    ▸ byte 0x00
    ▸ byte 0x0b
    ▸ byte 0x41
    ▸ s32 interval
    ▸ byte 0x24
    ▸ u32 counter
    ▸ byte 0x05
    ▸ byte 0x23
    ▸ u32 counter
    ▸ ticks scratch shift
    ▸ byte 0x6b
    ▸ byte 0x24
    ▸ u32 counter
    ▸ byte 0x0b
    ▸ byte 0x0b
    ▸ byte 0x20
    ▸ u32 scratch)
