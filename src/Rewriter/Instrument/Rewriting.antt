-- ===== src/Rewriter/Instrument/Rewriting.antt =====
-- `functionBody` of sdk/typescript/rewriter.ts writes each instruction rewritten: its spans and kept
-- charges make no difference.
pub mod Whole
use capnpc_wasm.Common.{
  ℕ, zero, suc, ◌+◌, ◌%◌, ◌≤◌, ◌<◌, ◌≡◌, refl, sym, ap, ◌∙◌, subst, Bool, true, false, not, ◌&&◌,
  ◌||◌, Option, none, some, List, [], ◌∷◌, ◌++◌, append-nil, append_assoc, arith, ltb, leb as le_b,
  ◌==◌, if◌then◌else◌, length, slice, get_or,
}
use capnpc_wasm.Common.Result.{Error, Result, ok, err, stuck, type_error}
use capnpc_wasm.Rewriter.Reader
use capnpc_wasm.Rewriter.Reader.{Reader}
use capnpc_wasm.Rewriter.Writer.{Writer, new, byte, bytes, u32, append, leb}
use capnpc_wasm.Rewriter.Writer.Content.{
  content, IsValid, Appends, Appends-trans, byte-Appends, bytes-Appends,
}
use capnpc_wasm.Rewriter.Writer.Encoding.{u32-Appends}
use capnpc_wasm.Rewriter.Types.{block_type}
use capnpc_wasm.Rewriter.Instrument.Pass.{
  State, Pass, pure, throw_if, read, get, modify, position, end_position, subarray, out_of_fuel,
  times, ◌>>=◌, ◌>>◌,
}
use capnpc_wasm.Rewriter.Instrument.Parts.{lookup, thunk_for, shift, countdown, reference}
use capnpc_wasm.Rewriter.Instrument.Body.{
  Body, u32_only, group, copy_until, charge, write, counting, is_call_of, loop_header, import_call,
  call, function_reference, bulk_immediates, unit_of, is_small, charge_bulk, bulk, immediates,
  instruction, body_loop, head, max_locals, entry_check, function_body,
}
use capnpc_wasm.Rewriter.Instrument.Reference.{
  Written, also, as_is, checked_loop, checked_import, checked_call, renumbered_reference,
  charged_bulk, bulk_operation, rewrite, rewrite_loop, locals, checked_entry, rewritten_body,
}
use capnpc_wasm.Rewriter.Instrument.Keeps.{
  Keeps, Keeps-pure, Keeps-throw_if, Keeps-read, Keeps-bind, Keeps-if, Keeps-get, Keeps-modify,
}
use capnpc_wasm.Rewriter.Instrument.Reads.{
  IsWithin-byte, IsWithin-u32, IsWithin-s32, IsWithin-block_type,
}
use capnpc_wasm.Rewriter.Instrument.Indexed.Body.{
  u32_only-Keeps, group-Keeps, bulk_immediates-Keeps, immediates-Keeps,
}
use capnpc_wasm.Rewriter.Instrument.Alike.{
  Alike, Alike-later, Alike-if, Alike-after, Alike-byte, Alike-bind, Alike-same, SideBySide,
  SideBySide-if,
}
use capnpc_wasm.Rewriter.Instrument.Spans.{
  HasNumbers, Agrees, IsCopied, IsPutOff, IsPutOff-as_is, copied, copied-IsCopied, IsPutOff-from,
  IsPutOff-charge, slice_self,
}

module _ (countdown_index interrupt interval scratch : ℕ) where
  abbrev P : State → Type 0
  P = HasNumbers countdown_index interrupt interval scratch

  thunk_for-Keeps : (index : ℕ) (found : Option ℕ) → Keeps P (thunk_for index found)
  thunk_for-Keeps index (some thunk) = Keeps-pure thunk
  thunk_for-Keeps index none = Keeps-bind _ _ Keeps-get λ s.
      Keeps-bind _ _ (Keeps-throw_if _ _)
        λ u. Keeps-bind _ _ (Keeps-modify _ λ s h. h) λ u. Keeps-pure _

  numbers-reference : (index : ℕ) → Keeps P (reference index)
  unfolding reference
  numbers-reference index = Keeps-bind _ _ Keeps-get λ s.
      Keeps-if (le_b s.imported_functions index) _ _ (Keeps-pure (index + 1)) (
        Keeps-if (s.defined_functions == 0) _ _ (Keeps-pure index)
          (thunk_for-Keeps index (lookup index s.thunk_of)))

  module _ (r : Reader) where
    -- A value found without moving the reader.
    abbrev Still : ℕ → ℕ → ℕ → State → ℕ → Type 0
    Still p a b s q = (a ≡ b) × P s × (q ≡ p)

    reference-Still :
        (index : ℕ) (s : State) (p : ℕ)
        → p ≤ r.end
        → P s
        → Alike (Still p) r.end p (reference index r s p) (reference index r s p)
    unfolding reference ◌>>=◌
    reference-Still index s p k g =
        Alike-if (Still p) (le_b s.imported_functions index) _ _ _ _ r s p
          (refl, refl, omega arith, k, (refl, g, refl))
          (Alike-if (Still p) (s.defined_functions == 0) _ _ _ _ r s p
            (refl, refl, omega arith, k, (refl, g, refl)) (found (lookup index s.thunk_of)))
      where
        added :
            (fixed : Bool)
            → s.sealed ≡ fixed
            → Alike (Still p) r.end p (thunk_for index none r s p) (thunk_for index none r s p)
        added true e = simp e refl
        added false e = simp e (refl, refl, omega arith, k, (refl, g, refl))

        found :
            (o : Option ℕ)
            → Alike (Still p) r.end p (thunk_for index o r s p) (thunk_for index o r s p)
        found (some t) = (refl, refl, omega arith, k, (refl, g, refl))
        found none = added s.sealed refl

    abbrev Q : Body → Written → State → ℕ → Type 0
    Q b w s q = P s × IsPutOff countdown_index interrupt interval scratch r b w q

    -- An instruction that is copied later.
    as_is-Alike :
        (at : ℕ) (b : Body) (w : Written) (s : State) (p : ℕ)
        → at ≤ p
        → p ≤ r.end
        → P s
        → IsPutOff countdown_index interrupt interval scratch r b w at
        → Alike Q r.end p (pure b r s p) (as_is at w r s p)
    unfolding as_is ◌>>=◌
    as_is-Alike at b w s p l k g h = (
      refl,
      refl,
      omega arith,
      k,
      (g, IsPutOff-as_is countdown_index interrupt interval scratch r b w at p l h),
    )

    loop-Alike :
        (check : List ℕ) (at : ℕ) (b : Body) (w : Written) (s : State) (p : ℕ)
        → at ≤ p
        → p ≤ r.end
        → P s
        → IsPutOff countdown_index interrupt interval scratch r b w at
        → Alike Q r.end p (loop_header check b r s p) (checked_loop check at w r s p)
    unfolding loop_header checked_loop
    loop-Alike check at b w s p l k g h =
        Alike-after P Q (read block_type) _ _ r s p (Keeps-read _ IsWithin-block_type) k g
          λ u t q i j n.
            let span = slice at q r.bytes in
            let whole =
              copied-IsCopied countdown_index interrupt interval scratch r b (also span w) q (
                IsPutOff-as_is countdown_index interrupt interval scratch r b w at q (omega arith)
                  h) in
            let c = copied countdown_index interrupt interval scratch r q b in
            let done =
              IsPutOff-from countdown_index interrupt interval scratch r c (also span w) check
                (bytes check c.instructions) q whole (bytes-Appends check c.instructions) in
            unfold copy_until ◌>>=◌ in
            (
              refl,
              refl,
              omega arith,
              j,
              (
                n,
                subst
                    (λ o.
                      IsPutOff countdown_index interrupt interval scratch r
                        (record c { instructions = bytes check c.instructions; from = q })
                        (record w { out = o }) q)
                    (append_assoc w.out span check) done,
              ),
            )

    import_call-Alike :
        (check : List ℕ) (op callee : ℕ) (b : Body) (w : Written) (s : State) (p : ℕ)
        → p ≤ r.end
        → P s
        → IsCopied countdown_index interrupt interval scratch b w
        → b.from ≡ p
        → Alike Q r.end p
            (import_call check op callee b r s p)
            (checked_import check op callee w r s p)
    unfolding ◌>>=◌
    import_call-Alike check op callee b w s p k g h e =
        Alike-if Q (is_call_of s.exit_function callee) _ _ _ _ r s p
          (refl, refl, omega arith, k, (g, ended ((0x10 ∷ leb callee) ++ (0x00 ∷ [])) _ trap))
          (choose (op == 0x12))
      where
        callee_writer : Writer
        callee_writer = u32 callee (byte 0x10 b.instructions)

        called : Appends (0x10 ∷ leb callee) b.instructions callee_writer
        called =
            Appends-trans (0x10 ∷ []) (leb callee) _ _ _ (byte-Appends 0x10 b.instructions)
              (u32-Appends callee _)

        trap : Appends ((0x10 ∷ leb callee) ++ (0x00 ∷ [])) b.instructions (byte 0x00 callee_writer)
        trap = Appends-trans (0x10 ∷ leb callee) (0x00 ∷ []) _ _ _ called (byte-Appends 0x00 _)

        checked : Appends ((0x10 ∷ leb callee) ++ check) b.instructions (bytes check callee_writer)
        checked = Appends-trans (0x10 ∷ leb callee) check _ _ _ called (bytes-Appends check _)

        ended :
            (xs : List ℕ) (v : Writer)
            → Appends xs b.instructions v
            → IsPutOff countdown_index interrupt interval scratch r
                (record b { instructions = v })
                (also xs w)
                p
        ended xs v a =
            subst
              (λ q.
                IsPutOff countdown_index interrupt interval scratch r
                  (record b { instructions = v; from = q }) (also xs w) p)
              (sym e) (IsPutOff-from countdown_index interrupt interval scratch r b w xs v p h a)

        choose :
            (tail : Bool)
            → Alike Q r.end p
                (ok (
                  if tail
                      then write (byte 0x0f) (record b { instructions = bytes check callee_writer })
                      else record b { instructions = bytes check callee_writer },
                  record s {
                    result = record s.result { import_checks = s.result.import_checks + 1 };
                  },
                  p,
                ))
                (ok (
                  also
                      (if tail
                        then ((0x10 ∷ leb callee) ++ check) ++ (0x0f ∷ [])
                        else (0x10 ∷ leb callee) ++ check)
                      w,
                  record s {
                    result = record s.result { import_checks = s.result.import_checks + 1 };
                  },
                  p,
                ))
        choose true = (
          refl,
          refl,
          omega arith,
          k,
          (
            g,
            ended (((0x10 ∷ leb callee) ++ check) ++ (0x0f ∷ [])) _ (
                Appends-trans ((0x10 ∷ leb callee) ++ check) (0x0f ∷ []) _ _ _ checked
                  (byte-Appends 0x0f _)),
          ),
        )
        choose false =
            (refl, refl, omega arith, k, (g, ended ((0x10 ∷ leb callee) ++ check) _ checked))

    with_guest :
        (b : Body) (w : Written)
        → IsCopied countdown_index interrupt interval scratch b w
        → IsCopied countdown_index interrupt interval scratch
            (record b { calls_guest = true })
            (record w { guest = true })
    with_guest b w h = record {
      agrees = record {
        valid = h.agrees.valid;
        guest = refl;
        constant = h.agrees.constant;
        charges = h.agrees.charges;
        charged = h.agrees.charged;
      };
      written = h.written;
    }

    from_anywhere :
        (b : Body) (w : Written) (q : ℕ)
        → IsCopied countdown_index interrupt interval scratch b w
        → IsCopied countdown_index interrupt interval scratch (record b { from = q }) w
    from_anywhere b w q h = record {
      agrees = record {
        valid = h.agrees.valid;
        guest = h.agrees.guest;
        constant = h.agrees.constant;
        charges = h.agrees.charges;
        charged = h.agrees.charged;
      };
      written = h.written;
    }

    call-Alike :
        (check : List ℕ) (at op : ℕ) (b : Body) (w : Written) (s : State) (p : ℕ)
        → p ≤ r.end
        → P s
        → IsPutOff countdown_index interrupt interval scratch r b w at
        → Alike Q r.end p (call check at op b r s p) (checked_call check op w r s p)
    unfolding call checked_call
    call-Alike check at op b w s p k g h =
        Alike-after P Q (read Reader.u32) _ _ r s p (Keeps-read _ IsWithin-u32) k g
          λ callee t q i j n.
            let c = copied countdown_index interrupt interval scratch r at b in
            let whole = copied-IsCopied countdown_index interrupt interval scratch r b w at h in
            let defined =
              Appends-trans ((op % 256) ∷ []) (leb (shift t callee)) _ _ _
                (byte-Appends op c.instructions) (u32-Appends (shift t callee) _) in
            unfold copy_until ◌>>=◌ in
            Alike-if Q (le_b t.imported_functions callee) (pure _)
              (import_call check op callee (record c { from = q })) (pure _)
              (checked_import check op callee w) r t q
              (
                refl,
                refl,
                omega arith,
                j,
                (
                  n,
                  IsPutOff-from countdown_index interrupt interval scratch r
                      (record c { calls_guest = true }) (record w { guest = true })
                      ((op % 256) ∷ leb (shift t callee)) _ q (with_guest c w whole) defined,
                ),
              )
              (import_call-Alike check op callee (record c { from = q }) w t q j n
                (from_anywhere c w q whole) refl)

    reference-Alike :
        (at : ℕ) (b : Body) (w : Written) (s : State) (p : ℕ)
        → p ≤ r.end
        → P s
        → IsPutOff countdown_index interrupt interval scratch r b w at
        → Alike Q r.end p (function_reference at b r s p) (renumbered_reference w r s p)
    unfolding function_reference renumbered_reference
    reference-Alike at b w s p k g h =
        Alike-after P Q (read Reader.u32) _ _ r s p (Keeps-read _ IsWithin-u32) k g
          λ index t q i j n.
            let c = copied countdown_index interrupt interval scratch r at b in
            let whole = copied-IsCopied countdown_index interrupt interval scratch r b w at h in
            unfold copy_until ◌>>=◌ in
            Alike-bind (Still q) Q (reference index) (reference index)
              (λ target. pure (write (λ w. u32 target (byte 0xd2 w)) (record c { from = q })))
              (λ target. pure (also (0xd2 ∷ leb target) w)) r t q (reference-Still index t q j n)
              λ target target' t' q' i' j' e. (
                refl,
                refl,
                omega arith,
                j',
                (
                  e.1,
                  subst
                      (λ a.
                        IsPutOff countdown_index interrupt interval scratch r
                          (record c {
                            instructions = u32 target (byte 0xd2 c.instructions);
                            from = q;
                          })
                          (also (0xd2 ∷ leb a) w) q')
                      e.0
                      (subst
                        (λ o.
                          IsPutOff countdown_index interrupt interval scratch r
                            (record c {
                              instructions = u32 target (byte 0xd2 c.instructions);
                              from = q;
                            })
                            (also (0xd2 ∷ leb target) w) o)
                        (sym e.2)
                        (IsPutOff-from countdown_index interrupt interval scratch r c w
                          (0xd2 ∷ leb target) _ q whole
                          (Appends-trans (0xd2 ∷ []) (leb target) _ _ _
                            (byte-Appends 0xd2 c.instructions) (u32-Appends target _)))),
                ),
              )

    charge_bulk-Alike :
        (at : ℕ) (operand unit : Option ℕ) (b : Body) (w : Written) (s : State) (p : ℕ)
        → at ≤ p
        → p ≤ r.end
        → P s
        → IsPutOff countdown_index interrupt interval scratch r b w at
        → Alike Q r.end p
            (charge_bulk at scratch operand unit b r s p)
            (charged_bulk at scratch operand unit w r s p)
    charge_bulk-Alike at operand none b w s p l k g h = as_is-Alike at b w s p l k g h
    charge_bulk-Alike at operand (some unit) b w s p l k g h =
        Alike-if Q (is_small operand unit) _ _ _ _ r s p (as_is-Alike at b w s p l k g h) (
          let c : Body = record (copied countdown_index interrupt interval scratch r at b) {
            from = at;
          } in
          let charged = IsPutOff-charge countdown_index interrupt interval scratch r s unit c w g (
            from_anywhere (copied countdown_index interrupt interval scratch r at b) w at
              (copied-IsCopied countdown_index interrupt interval scratch r b w at h)) in
          unfold copy_until as_is ◌>>=◌ in
          (
            refl,
            refl,
            omega arith,
            k,
            (g, IsPutOff-as_is countdown_index interrupt interval scratch r _ _ at p l charged),
          ))

    bulk-Alike :
        (at : ℕ) (operand : Option ℕ) (b : Body) (w : Written) (s : State) (p : ℕ)
        → at ≤ p
        → p ≤ r.end
        → P s
        → IsPutOff countdown_index interrupt interval scratch r b w at
        → Alike Q r.end p
            (bulk at scratch operand b r s p)
            (bulk_operation at scratch operand w r s p)
    unfolding bulk bulk_operation
    bulk-Alike at operand b w s p l k g h =
        Alike-after P Q _ _ _ r s p (Keeps-read _ IsWithin-u32) k g λ c t q i j n.
          Alike-after P Q _ _ _ r t q (bulk_immediates-Keeps c) j n λ u t' q' i' j' n'.
            charge_bulk-Alike at operand (unit_of c) b w t' q' (omega arith) j' n' h

    with_constant :
        (value : Option ℕ) (b : Body) (w : Written) (q : ℕ)
        → IsPutOff countdown_index interrupt interval scratch r b w q
        → IsPutOff countdown_index interrupt interval scratch r
            (record b { constant = value })
            (record w { constant = value })
            q
    with_constant value b w q h = record {
      agrees = record {
        valid = h.agrees.valid;
        guest = h.agrees.guest;
        constant = refl;
        charges = h.agrees.charges;
        charged = h.agrees.charged;
      };
      ahead = h.ahead;
      written = h.written;
    }

    calling :
        (b : Body) (w : Written) (q : ℕ)
        → IsPutOff countdown_index interrupt interval scratch r b w q
        → IsPutOff countdown_index interrupt interval scratch r
            (record b { calls_guest = true })
            (record w { guest = true })
            q
    calling b w q h = record {
      agrees = record {
        valid = h.agrees.valid;
        guest = refl;
        constant = h.agrees.constant;
        charges = h.agrees.charges;
        charged = h.agrees.charged;
      };
      ahead = h.ahead;
      written = h.written;
    }

    instruction-Alike :
        (check : List ℕ) (at op : ℕ) (operand : Option ℕ) (b : Body) (w : Written) (s : State)
        (p : ℕ)
        → at ≤ p
        → p ≤ r.end
        → P s
        → IsPutOff countdown_index interrupt interval scratch r b w at
        → Alike Q r.end p
            (instruction check scratch at op operand b r s p)
            (rewrite check scratch at op operand w r s p)
    unfolding instruction rewrite
    instruction-Alike check at op operand b w s p l k g h =
        let cases : SideBySide Q r s p (instruction check scratch at op operand b)
            (rewrite check scratch at op operand w) =
          SideBySide-if (op == 0x03) _ _ _ _
            (record { alike = loop-Alike check at b w s p l k g h })
            (SideBySide-if (op == 0x10 || op == 0x12) _ _ _ _
              (record { alike = call-Alike check at op b w s p k g h })
              (SideBySide-if (op == 0xd2) _ _ _ _
                (record { alike = reference-Alike at b w s p k g h })
                (SideBySide-if (op == 0x11 || op == 0x13) _ _ _ _
                  (record {
                    alike = Alike-after P Q _ _ _ r s p u32_only-Keeps k g λ u t q i j n.
                        Alike-after P Q _ _ _ r t q u32_only-Keeps j n λ u t' q' i' j' n'.
                          as_is-Alike at _ _ t' q' (omega arith) j' n' (calling b w at h);
                  })
                  (SideBySide-if (op == 0x14 || op == 0x15) _ _ _ _
                    (record {
                      alike = Alike-after P Q _ _ _ r s p u32_only-Keeps k g λ u t q i j n.
                          as_is-Alike at _ _ t q (omega arith) j n (calling b w at h);
                    })
                    (SideBySide-if (op == 0x41) _ _ _ _
                      (record {
                        alike =
                            Alike-after P Q _ _ _ r s p (Keeps-read _ IsWithin-s32) k g
                              λ value t q i j n.
                                as_is-Alike at _ _ t q (omega arith) j n
                                  (with_constant (some value) b w at h);
                      })
                      (SideBySide-if (op == 0xfc) _ _ _ _
                        (record { alike = bulk-Alike at operand b w s p l k g h })
                        (record {
                          alike =
                              Alike-after P Q _ _ _ r s p (immediates-Keeps op) k g
                                λ u t q i j n. as_is-Alike at b w t q (omega arith) j n h;
                        }))))))) in
        cases.alike

    -- At the end of the body.
    abbrev AtEnd : Body → Written → State → ℕ → Type 0
    AtEnd b w s q = P s × IsPutOff countdown_index interrupt interval scratch r b w r.end

    loop_end :
        (b : Body) (w : Written) (s : State) (p : ℕ)
        → p ≤ r.end
        → P s
        → IsPutOff countdown_index interrupt interval scratch r b w p
        → le_b r.end p ≡ true
        → Alike AtEnd r.end p (pure b r s p) (pure w r s p)
    unfolding pure
    loop_end b w s p k g h e =
        let at : p ≡ r.end = ground (arith, k) in
        (
          refl,
          refl,
          omega arith,
          k,
          (g, subst (λ q. IsPutOff countdown_index interrupt interval scratch r b w q) at h),
        )

    -- What follows a round.
    abbrev LoopsAlike : ℕ → List ℕ → Type 0
    LoopsAlike n check =
        (b : Body) (w : Written) (s : State) (p : ℕ)
        → p ≤ r.end
        → P s
        → IsPutOff countdown_index interrupt interval scratch r b w p
        → Alike AtEnd r.end p (body_loop n check scratch b r s p)
            (rewrite_loop n check scratch w r s p)

    round-Alike : (n : ℕ) (check : List ℕ) → LoopsAlike n check → LoopsAlike (suc n) check
    unfolding body_loop rewrite_loop ◌>>=◌
    round-Alike n check rest b w s p k g h = go (le_b r.end p) refl
      where
        go :
            (over : Bool)
            → le_b r.end p ≡ over
            → Alike AtEnd r.end p
                ((if over then pure b else (do
                  op ← read Reader.byte
                  b' ← instruction check scratch p op b.constant (record b { constant = none })
                  body_loop n check scratch b'))
                  r s p)
                ((if over then pure w else (do
                  op ← read Reader.byte
                  w' ← rewrite check scratch p op w.constant (record w { constant = none })
                  rewrite_loop n check scratch w'))
                  r s p)
        go true e = loop_end b w s p k g h e
        go false e =
            Alike-byte AtEnd
              (λ op.
                instruction check scratch p op b.constant (record b { constant = none })
                >>= body_loop n check scratch)
              (λ op.
                rewrite check scratch p op w.constant (record w { constant = none })
                >>= rewrite_loop n check scratch)
              r s p
              λ op lt.
                Alike-bind Q AtEnd
                  (instruction check scratch p op b.constant (record b { constant = none }))
                  (rewrite check scratch p op w.constant (record w { constant = none }))
                  (body_loop n check scratch) (rewrite_loop n check scratch) r s (p + 1)
                  (subst
                    (λ o.
                      Alike Q r.end (p + 1)
                        (instruction check scratch p op b.constant (record b { constant = none }) r
                          s (p + 1))
                        (rewrite check scratch p op o (record w { constant = none }) r s (p + 1)))
                    h.agrees.constant
                    (instruction-Alike check p op b.constant (record b { constant = none })
                      (record w { constant = none }) s (p + 1) (omega arith) (omega arith) g
                      (with_constant none b w p h)))
                  λ b' w' t q i j m. rest b' w' t q j m.0 m.1

    body_loop-Alike : (n : ℕ) (check : List ℕ) → LoopsAlike n check
    body_loop-Alike zero check b w s p k g h = unfold body_loop rewrite_loop out_of_fuel in tt
    body_loop-Alike (suc n) check b w s p k g h =
        round-Alike n check (body_loop-Alike n check) b w s p k g h
