-- ===== src/Limits/Paths/Split.antt =====
-- Splitting a path at its slashes and joining its parts are inverse.
use capnpc_wasm.Common.{
  ℕ, ◌≡◌, refl, ap, ap₂, ◌∙◌, sym, false, List, [], ◌∷◌, ◌++◌, ◌==◌, All, Bool-cases, ==_iff, inl,
  inr,
}
use capnpc_wasm.Limits.Utf8.{Text}
use capnpc_wasm.Limits.Paths.{slash, split}

unfoldable pub join : List Text → Text
join [] = []
join (part ∷ []) = part
join (part ∷ next ∷ parts) = part ++ (slash ∷ join (next ∷ parts))

-- A part has no slash.
abbrev pub IsPart : Text → Type 0
IsPart = All (λ unit. (unit == slash) ≡ false)

pub split-join :
    (parts : List Text) (part : Text)
    → All IsPart (part ∷ parts)
    → split (join (part ∷ parts)) ≡ part ∷ parts
unfolding split join
split-join [] [] h = refl
split-join [] (unit ∷ part) ((u, p), h) = rw (u, split-join [] part (p, h))
split-join (next ∷ parts) [] (p, h) = rw (split-join parts next h)
split-join (next ∷ parts) (unit ∷ part) ((u, p), h) = rw (u, split-join (next ∷ parts) part (p, h))

-- The parts of any path.
pub record Parts (path : Text) : Type 0 where
  pub first : Text
  pub others : List Text
  pub splits : split path ≡ first ∷ others
  pub joins : join (first ∷ others) ≡ path
  pub parts : All IsPart (first ∷ others)

join-extend :
    (unit : ℕ) (part : Text) (parts : List Text)
    → join ((unit ∷ part) ∷ parts) ≡ unit ∷ join (part ∷ parts)
unfolding join
join-extend unit part [] = refl
join-extend unit part (next ∷ parts) = refl

pub Parts-split : (path : Text) → Parts path
unfolding split join
Parts-split [] = record { first = []; others = []; splits = refl; joins = refl; parts = (tt, tt) }
Parts-split (unit ∷ units) =
    let r = Parts-split units in
    elim (Bool-cases (unit == slash)) [
      | inl e ↦ record {
        first = [];
        others = r.first ∷ r.others;
        splits = rw (e, r.splits);
        joins = ap₂ (λ u us. u ∷ us) (sym ((==_iff unit slash).0 e)) r.joins;
        parts = (tt, r.parts);
      }
      | inr e ↦ record {
        first = unit ∷ r.first;
        others = r.others;
        splits = rw (e, r.splits);
        joins = join-extend unit r.first r.others ∙ ap (λ us. unit ∷ us) r.joins;
        parts = ((e, r.parts.0), r.parts.1);
      }
    ]
