-- ===== src/Rewriter/Tests.antt =====
-- Runs of the reader, the writer and the memory bound, and the theorems at concrete inputs.
use capnpc_wasm.Common.{
  ℕ, ◌+◌, ◌-◌, ◌^◌, ◌≤◌, ◌<◌, ◌≡◌, ◌≢◌, refl, sym, append-nil, List, [], ◌∷◌, ◌++◌, arith, length,
  ltb, if◌then◌else◌,
}
use capnpc_wasm.Common.Result.{ok, err, stuck, type_error}
use capnpc_wasm.Rewriter.Reader.{byte, u32, s32, ◌>>=◌}
use capnpc_wasm.Rewriter.Writer
use capnpc_wasm.Rewriter.Writer.{Writer, finish, leb, new}
use capnpc_wasm.Rewriter.Writer.Content.{
  content, IsValid-new, finish-content, Appends-IsValid, byte-Appends,
}
use capnpc_wasm.Rewriter.Writer.Encoding.{u32-Appends}
use capnpc_wasm.Rewriter.Writer.Slots.{behind, slot-IsValid, fill-slot}
use capnpc_wasm.Rewriter.RoundTrip.Written.{u32-write, s32-write}
use capnpc_wasm.Rewriter.Bounds.{u32_bounds}
use capnpc_wasm.Rewriter.Memory.{
  uint8array, header, module_bytes, bounded_memory, memory_section, scan_section, scan, replace,
  bound_memory,
}
use capnpc_wasm.Rewriter.Memory.Layout.{whole, Module, module_of, IsModule}
use capnpc_wasm.Rewriter.Memory.Exact.{bounded, bound_memory-module}
use capnpc_wasm.Rewriter.Memory.Converse.{
  canonical, canonical-IsModule, Accepted, bound_memory_accepts, bound_memory_again,
}
use capnpc_wasm.Rewriter.Memory.Termination.{bound_memory-ne-stuck}

-- A module with an empty custom section and a memory of 2 to 100 pages.
abbrev small_module : List ℕ
small_module = header ++ (0 ∷ 0 ∷ 5 ∷ 4 ∷ 1 ∷ 1 ∷ 2 ∷ 100 ∷ [])

abbrev small_bounded : List ℕ
small_bounded = header ++ (0 ∷ 0 ∷ 5 ∷ 4 ∷ 1 ∷ 1 ∷ 2 ∷ 10 ∷ [])

bound_small : bound_memory (uint8array small_module) 10 ≡ ok small_bounded
unfolding bound_memory module_bytes scan scan_section byte u32 ◌>>=◌ memory_section bounded_memory
    replace leb
bound_small = refl

bound_too_small :
    bound_memory (uint8array small_module) 1
    ≡ err (type_error "initial guest memory exceeds memoryPages limit")
unfolding bound_memory module_bytes scan scan_section byte u32 ◌>>=◌ memory_section bounded_memory
    replace leb
bound_too_small = refl

bound_no_memory :
    bound_memory (uint8array header) 10
    ≡ err (type_error "WASI command requires exactly one defined memory")
unfolding bound_memory module_bytes scan replace
bound_no_memory = refl

-- 300 is 0xac 0x02, and -2 is 0x7e.
leb_300 : leb 300 ≡ 0xac ∷ 0x02 ∷ []
unfolding leb
leb_300 = refl

s32_minus_two : s32 (record { bytes = 0x7e ∷ []; end = 1 }) 0 ≡ ok (2 ^ 32 - 2, 1)
unfolding s32 ◌>>=◌
s32_minus_two = refl

u32_too_long :
    u32 (record { bytes = 0xff ∷ 0xff ∷ 0xff ∷ 0xff ∷ 0x10 ∷ []; end = 5 }) 0
    ≡ err (type_error "invalid Wasm u32 encoding")
unfolding u32 ◌>>=◌
u32_too_long = refl

-- The theorems at inputs that meet their hypotheses.
abbrev sample : Module
sample = canonical [] [] 2 100

sample-IsModule : IsModule sample
sample-IsModule = canonical-IsModule [] [] 2 100 tt tt (omega arith) (omega arith)

bound_memory-module_example : bound_memory (uint8array (module_of sample)) 10 ≡ (
    if ltb 10 2
    then err (type_error "initial guest memory exceeds memoryPages limit")
    else ok (module_of (bounded 10 sample)))
bound_memory-module_example = bound_memory-module 10 sample sample-IsModule

bound_memory_accepts_example : Accepted (uint8array small_module) 10 small_bounded
bound_memory_accepts_example =
    bound_memory_accepts (uint8array small_module) 10 small_bounded bound_small

bound_memory_again_example :
    bound_memory (uint8array small_bounded) 5 ≡ bound_memory (uint8array small_module) 5
bound_memory_again_example =
    bound_memory_again (uint8array small_module) 10 5 small_bounded bound_small (omega arith)

bound_memory-ne-stuck_example : bound_memory (uint8array small_module) 10 ≢ stuck
bound_memory-ne-stuck_example = bound_memory-ne-stuck (uint8array small_module) 10

abbrev three_hundred : Writer
three_hundred = Writer.u32 300 new

three_hundred-IsValid : Writer.Content.IsValid three_hundred
three_hundred-IsValid =
    Appends-IsValid (leb 300) new three_hundred (u32-Appends 300 new) IsValid-new

finish-content_example : finish three_hundred ≡ content three_hundred
finish-content_example = finish-content three_hundred three_hundred-IsValid

u32-write_example :
    u32 (whole (finish (Writer.u32 70000 three_hundred))) three_hundred.size
    ≡ ok (70000, length (finish (Writer.u32 70000 three_hundred)))
u32-write_example = u32-write three_hundred 70000 three_hundred-IsValid (omega arith)

s32-write_example :
    s32 (whole (finish (Writer.s32 (2 ^ 32 - 2) three_hundred))) three_hundred.size
    ≡ ok (2 ^ 32 - 2, length (finish (Writer.s32 (2 ^ 32 - 2) three_hundred)))
s32-write_example = s32-write three_hundred (2 ^ 32 - 2) three_hundred-IsValid (omega arith)

read_300 : u32 (record { bytes = 0xac ∷ 0x02 ∷ []; end = 2 }) 0 ≡ ok (300, 2)
unfolding u32 ◌>>=◌
read_300 = refl

u32_bounds_example : (300 < 2 ^ 32) × (0 < 2) × (2 ≤ 0 + 5) × (2 ≤ 2) × (length (leb 300) + 0 ≤ 2)
u32_bounds_example = u32_bounds (record { bytes = 0xac ∷ 0x02 ∷ []; end = 2 }) 0 300 2 read_300

-- A slot with the byte 7 written behind it.
abbrev behind_slot : Writer
behind_slot = Writer.byte 7 (Writer.slot new).0

behind_slot-IsValid : Writer.Content.IsValid behind_slot
behind_slot-IsValid =
    Appends-IsValid (7 ∷ []) (Writer.slot new).0 behind_slot (byte-Appends 7 (Writer.slot new).0)
      (slot-IsValid new IsValid-new)

slot_kept : behind_slot.parts ≡ (Writer.slot new).0.parts ++ []
unfolding Writer.byte
slot_kept = sym (append-nil (Writer.slot new).0.parts)

fill-slot_example :
    (content behind_slot ≡ content new ++ behind [] behind_slot)
    × (content (Writer.fill (Writer.slot new).1 three_hundred behind_slot)
        ≡ content new ++ (content three_hundred ++ behind [] behind_slot))
    × Writer.Content.IsValid (Writer.fill (Writer.slot new).1 three_hundred behind_slot)
fill-slot_example =
    fill-slot new behind_slot three_hundred [] slot_kept three_hundred-IsValid behind_slot-IsValid
