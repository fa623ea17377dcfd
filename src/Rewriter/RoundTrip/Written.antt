-- ===== src/Rewriter/RoundTrip/Written.antt =====
-- Whole round trips: a number written behind any other output is read back from the finished bytes.
use capnpc_wasm.Common.{
  ℕ, ◌+◌, ◌^◌, ◌<◌, ◌≡◌, sym, ap, ◌∙◌, subst, List, [], ◌++◌, append-nil, arith, length,
  length-append,
}
use capnpc_wasm.Common.Result.{ok}
use capnpc_wasm.Rewriter.Reader.{u32, s32}
use capnpc_wasm.Rewriter.Reader.Locality.{Ahead}
use capnpc_wasm.Rewriter.Writer
use capnpc_wasm.Rewriter.Writer.{Writer, finish, leb}
use capnpc_wasm.Rewriter.Writer.Content.{content, IsValid, Appends, Appends-IsValid, finish-content}
use capnpc_wasm.Rewriter.Writer.Encoding.{u32-Appends}
use capnpc_wasm.Rewriter.Memory.Layout.{whole, Ahead-suffix}
use capnpc_wasm.Rewriter.RoundTrip.{u32-leb}
use capnpc_wasm.Rewriter.RoundTrip.Signed.{sleb, s32-Appends, s32-sleb}

-- What a writer appended stands at the old length in the finished bytes.
module _ (xs : List ℕ) (w w' : Writer) (v : IsValid w) (a : Appends xs w w') where
  finished : finish w' ≡ content w ++ xs
  finished = finish-content w' (Appends-IsValid xs w w' a v) ∙ a.written

  ahead : Ahead (whole (finish w')) w.size xs
  ahead = rw finished (
      subst (λ i. Ahead (whole (content w ++ xs)) i xs) (sym v.counted)
        (subst
          (λ t.
            Ahead (record { bytes = content w ++ t; end = length (content w ++ xs) })
              (length (content w)) xs)
          (append-nil xs)
          (Ahead-suffix (content w) xs [] (length (content w ++ xs))
            (omega (arith, length-append (content w) xs)))))

  end : w.size + length xs ≡ length (finish w')
  end = rw finished (omega (arith, v.counted, length-append (content w) xs))

-- `Reader.u32` reads back a uint32 that `Writer.u32` wrote behind any output, up to the end.
pub u32-write :
    (w : Writer) (v : ℕ)
    → IsValid w
    → v < 2 ^ 32
    → u32 (whole (finish (Writer.u32 v w))) w.size ≡ ok (v, length (finish (Writer.u32 v w)))
u32-write w v valid h =
    let a = u32-Appends v w in
    u32-leb v w.size (whole (finish (Writer.u32 v w))) h (ahead (leb v) w (Writer.u32 v w) valid a)
    ∙ ap (λ t. ok (v, t)) (end (leb v) w (Writer.u32 v w) valid a)

-- `Reader.s32` reads back an int32, given by its bit pattern, that `Writer.s32` wrote behind any
-- output, up to the end.
pub s32-write :
    (w : Writer) (v : ℕ)
    → IsValid w
    → v < 2 ^ 32
    → s32 (whole (finish (Writer.s32 v w))) w.size ≡ ok (v, length (finish (Writer.s32 v w)))
s32-write w v valid h =
    let a = s32-Appends v w h in
    s32-sleb v w.size (whole (finish (Writer.s32 v w))) h
      (ahead (sleb v) w (Writer.s32 v w) valid a)
    ∙ ap (λ t. ok (v, t)) (end (sleb v) w (Writer.s32 v w) valid a)
