-- ===== src/ResourceFs/Entries/Closed.antt =====
-- `attach` of `boundFilesystem` in sdk/typescript/resource-fs.ts: it returns, and what it retains has
-- only retained children.
use capnpc_wasm.Common.{
  ℕ, zero, suc, ◌+◌, ◌≤◌, ◌<◌, ◌≡◌, ◌⊎◌, refl, sym, ap, subst, ◌∙◌, Bool, true, false, List, [],
  ◌∷◌, arith, inl, inr, get_or, set, length, All,
}
use capnpc_wasm.Common.Result.{Result, ok}
use capnpc_wasm.ResourceFs.Budget.{attach as attach_file}
use capnpc_wasm.ResourceFs.Entries.{
  Inode, file, directory, Filesystem, is_retained, for_each, children, visit, attach, contents_of,
  contents_at,
}

abbrev pub kids : Filesystem → ℕ → List ℕ
kids fs id = children (contents_at fs id)

abbrev pub AllRetained : Filesystem → List ℕ → Type 0
AllRetained fs ids = All (λ id. is_retained fs id ≡ true) ids

-- The children of what is retained are retained.
abbrev pub IsClosed : Filesystem → Type 0
IsClosed fs = (id : ℕ) → is_retained fs id ≡ true → AllRetained fs (kids fs id)

-- The inodes that are not retained.
abbrev pub left : List Bool → ℕ
left [] = 0
left (true ∷ bs) = left bs
left (false ∷ bs) = suc (left bs)

left-set : (bs : List Bool) (i : ℕ) → get_or bs i true ≡ false → left (set bs i true) + 1 ≡ left bs
left-set [] i h = absurd cc
left-set (true ∷ bs) zero h = absurd cc
left-set (false ∷ bs) zero h = omega arith
left-set (true ∷ bs) (suc i) h = left-set bs i h
left-set (false ∷ bs) (suc i) h = omega (arith, left-set bs i h)

pub left_le : (bs : List Bool) → left bs ≤ length bs
left_le [] = omega arith
left_le (true ∷ bs) = omega (arith, left_le bs)
left_le (false ∷ bs) = omega (arith, left_le bs)

set-true-grows :
    (bs : List Bool) (i x : ℕ) → get_or bs x true ≡ true → get_or (set bs i true) x true ≡ true
set-true-grows [] i x h = refl
set-true-grows (b ∷ bs) zero zero h = refl
set-true-grows (b ∷ bs) zero (suc x) h = h
set-true-grows (b ∷ bs) (suc i) zero h = h
set-true-grows (b ∷ bs) (suc i) (suc x) h = set-true-grows bs i x h

set-true-here : (bs : List Bool) (i : ℕ) → get_or (set bs i true) i true ≡ true
set-true-here [] i = refl
set-true-here (b ∷ bs) zero = refl
set-true-here (b ∷ bs) (suc i) = set-true-here bs i

set-true-cases :
    (bs : List Bool) (i x : ℕ)
    → get_or (set bs i true) x true ≡ true
    → (x ≡ i) ⊎ (get_or bs x true ≡ true)
set-true-cases [] i x h = inr refl
set-true-cases (b ∷ bs) zero zero h = inl refl
set-true-cases (b ∷ bs) zero (suc x) h = inr h
set-true-cases (b ∷ bs) (suc i) zero h = inr h
set-true-cases (b ∷ bs) (suc i) (suc x) h = elim (set-true-cases bs i x h) [
  | inl e ↦ inl (ap suc e)
  | inr e ↦ inr e
]

length-set-true : (bs : List Bool) (i : ℕ) → length (set bs i true) ≡ length bs
length-set-true [] i = refl
length-set-true (b ∷ bs) zero = refl
length-set-true (b ∷ bs) (suc i) = ap suc (length-set-true bs i)

-- `attach` of these inodes returns. It retains them and more, counts no entry and changes no
-- directory, and what it has come to retain has only retained children.
pub record IsAttached (ids : List ℕ) (before : Filesystem) (result : Result Filesystem)
    : Type 0 where
  pub after : Filesystem
  pub returns : result ≡ ok after
  pub fewer : left after.retained ≤ left before.retained
  pub same : after.entries ≡ before.entries
  pub store : after.inodes ≡ before.inodes
  pub sized : length after.retained ≡ length before.retained
  pub grows : (x : ℕ) → is_retained before x ≡ true → is_retained after x ≡ true
  pub here : AllRetained after ids
  pub closed :
      (x : ℕ)
      → is_retained after x ≡ true
      → (is_retained before x ≡ true) ⊎ AllRetained after (kids before x)

pub AllRetained-grows :
    (before after : Filesystem) (ids : List ℕ)
    → ((x : ℕ) → is_retained before x ≡ true → is_retained after x ≡ true)
    → AllRetained before ids
    → AllRetained after ids
AllRetained-grows before after [] g h = tt
AllRetained-grows before after (id ∷ ids) g (p, h) =
    (g id p, AllRetained-grows before after ids g h)

kids-same : (a b : Filesystem) (x : ℕ) → a.inodes ≡ b.inodes → kids a x ≡ kids b x
kids-same a b x e = ap (λ inodes. children (contents_of (get_or inodes x (file 0)))) e

abbrev Attaches : (ℕ → Filesystem → Result Filesystem) → ℕ → Type 0
Attaches act bound =
    (id : ℕ) (fs : Filesystem) → left fs.retained < bound → IsAttached (id ∷ []) fs (act id fs)

for_each-IsAttached :
    (act : ℕ → Filesystem → Result Filesystem) (bound : ℕ)
    → Attaches act bound
    → (ids : List ℕ) (fs : Filesystem) → left fs.retained < bound
    → IsAttached ids fs (for_each act ids fs)
for_each-IsAttached act bound h [] fs l = record {
  after = fs;
  returns = refl;
  fewer = omega arith;
  same = refl;
  store = refl;
  sized = refl;
  grows = λ x r. r;
  here = tt;
  closed = λ x r. inl r;
}
for_each-IsAttached act bound h (id ∷ ids) fs l =
    let first = h id fs l in
    let rest = for_each-IsAttached act bound h ids first.after (omega (arith, first.fewer, l)) in
    record {
      after = rest.after;
      returns = rw (first.returns) rest.returns;
      fewer = omega (arith, first.fewer, rest.fewer);
      same = omega (arith, first.same, rest.same);
      store = rest.store ∙ first.store;
      sized = rest.sized ∙ first.sized;
      grows = λ x r. rest.grows x (first.grows x r);
      here = (rest.grows id first.here.0, rest.here);
      closed = λ x r. elim (rest.closed x r) [
        | inr k ↦ inr (subst (AllRetained rest.after) (kids-same first.after fs x first.store) k)
        | inl p ↦ elim (first.closed x p) [
          | inl q ↦ inl q
          | inr k ↦ inr (AllRetained-grows first.after rest.after (kids fs x) rest.grows k)
        ]
      ];
    }

visit-IsAttached :
    (act : ℕ → Filesystem → Result Filesystem) (bound : ℕ)
    → Attaches act bound
    → (inode : Inode) (fs : Filesystem) → left fs.retained < bound
    → IsAttached (children (contents_of inode)) fs (visit act inode fs)
visit-IsAttached act bound h (file size) fs l = record {
  after = record fs { budget = attach_file size fs.budget };
  returns = refl;
  fewer = omega arith;
  same = refl;
  store = refl;
  sized = refl;
  grows = λ x r. r;
  here = tt;
  closed = λ x r. inl r;
}
visit-IsAttached act bound h (directory contents) fs l =
    for_each-IsAttached act bound h (children contents) fs l

pub attach-IsAttached :
    (fuel id : ℕ) (fs : Filesystem)
    → left fs.retained < fuel
    → IsAttached (id ∷ []) fs (attach fuel id fs)
unfolding attach
attach-IsAttached zero id fs l = absurd (omega arith)
attach-IsAttached (suc fuel) id fs l = go (get_or fs.retained id true) refl (attach-IsAttached fuel)
  where
    go :
        (kept : Bool)
        → get_or fs.retained id true ≡ kept
        → Attaches (attach fuel) fuel
        → IsAttached (id ∷ []) fs (elim kept [
          | true ↦ ok fs
          | false ↦
              visit
                (attach fuel)
                (get_or fs.inodes id (file 0))
                (record fs { retained = set fs.retained id true })
        ])
    go true e h = record {
      after = fs;
      returns = refl;
      fewer = omega arith;
      same = refl;
      store = refl;
      sized = refl;
      grows = λ x r. r;
      here = (e, tt);
      closed = λ x r. inl r;
    }
    go false e h =
        let marked : Filesystem = record fs { retained = set fs.retained id true } in
        let less = left-set fs.retained id e in
        let visited =
          visit-IsAttached (attach fuel) fuel h (get_or fs.inodes id (file 0)) marked
            (omega (arith, less, l)) in
        record {
          after = visited.after;
          returns = visited.returns;
          fewer = omega (arith, less, visited.fewer);
          same = visited.same;
          store = visited.store;
          sized = visited.sized ∙ length-set-true fs.retained id;
          grows = λ x r. visited.grows x (set-true-grows fs.retained id x r);
          here = (visited.grows id (set-true-here fs.retained id), tt);
          closed = λ x r. elim (visited.closed x r) [
            | inr k ↦ inr k
            | inl p ↦ elim (set-true-cases fs.retained id x p) [
              | inl q ↦
                  inr (subst (λ y. AllRetained visited.after (kids fs y)) (sym q) visited.here)
              | inr q ↦ inl q
            ]
          ];
        }

-- Where the children of what was retained were retained, they are after `attach`.
pub attach-IsClosed :
    (id : ℕ) (fs : Filesystem) (result : Result Filesystem) (a : IsAttached (id ∷ []) fs result)
    → IsClosed fs
    → IsClosed a.after
attach-IsClosed id fs result a h x r =
    subst (AllRetained a.after) (sym (kids-same a.after fs x a.store)) (elim (a.closed x r) [
      | inl q ↦ AllRetained-grows fs a.after (kids fs x) a.grows (h x q)
      | inr k ↦ k
    ])
