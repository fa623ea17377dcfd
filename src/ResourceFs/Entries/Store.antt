-- ===== src/ResourceFs/Entries/Store.antt =====
-- The inodes of `boundFilesystem` in sdk/typescript/resource-fs.ts: what is reached is retained.
use capnpc_wasm.Common.{
  ℕ, zero, suc, ◌<◌, ◌≡◌, ◌⊎◌, refl, sym, ap, subst, ◌∙◌, Bool, true, false, some, List, [], ◌∷◌,
  ◌++◌, arith, Bool-cases, inl, inr, get_or, get_elem?, set, length, length-append, All,
}
use capnpc_wasm.Common.Result.{Result}
use capnpc_wasm.ResourceFs.Entries.{
  Inode, file, directory, Filesystem, same_name, is_retained, children, assign, contents_of, put,
  remove, make,
}
use capnpc_wasm.ResourceFs.Entries.Closed.{kids, AllRetained, IsClosed, IsAttached, attach-IsClosed}

abbrev AllBelow : ℕ → List ℕ → Type 0
AllBelow n ids = All (λ id. id < n) ids

-- The names of the directories lead to inodes of the store.
pub record IsStore (fs : Filesystem) : Type 0 where
  pub sized : length fs.retained ≡ length fs.inodes
  pub below : All (λ inode. AllBelow (length fs.inodes) (children (contents_of inode))) fs.inodes

-- What a directory leads to from the root.
pub data Reaches (fs : Filesystem) (root : ℕ) : ℕ → Type 0 where
  root_itself : Reaches fs root root
  through :
      (dir child k : ℕ)
      → Reaches fs root dir
      → get_elem? (kids fs dir) k ≡ some child
      → Reaches fs root child

-- The root is retained, with the children of what is retained.
pub record IsBounded (root : ℕ) (fs : Filesystem) : Type 0 where
  pub store : IsStore fs
  pub rooted : is_retained fs root ≡ true
  pub inside : root < length fs.inodes
  pub closed : IsClosed fs

module _ {A : Type 0} (P : A → Type 0) where
  All-get : (xs : List A) (k : ℕ) (x : A) → All P xs → get_elem? xs k ≡ some x → P x
  All-get [] k x h e = absurd cc
  All-get (y ∷ xs) zero x (p, h) e = let same : y ≡ x = cc in subst P same p
  All-get (y ∷ xs) (suc k) x (p, h) e = All-get xs k x h e

  All-get_or : (xs : List A) (k : ℕ) (d : A) → P d → All P xs → P (get_or xs k d)
  All-get_or [] k d p h = p
  All-get_or (x ∷ xs) zero d p h = h.0
  All-get_or (x ∷ xs) (suc k) d p h = All-get_or xs k d p h.1

  All-set : (xs : List A) (k : ℕ) (x : A) → P x → All P xs → All P (set xs k x)
  All-set [] k x p h = tt
  All-set (y ∷ xs) zero x p h = (p, h.1)
  All-set (y ∷ xs) (suc k) x p h = (h.0, All-set xs k x p h.1)

  All-end : (xs : List A) (x : A) → All P xs → P x → All P (xs ++ (x ∷ []))
  All-end [] x h p = (p, tt)
  All-end (y ∷ xs) x h p = (h.0, All-end xs x h.1 p)

All-more :
    {A : Type 0} (P Q : A → Type 0) (xs : List A) → ((x : A) → P x → Q x) → All P xs → All Q xs
All-more P Q [] f h = tt
All-more P Q (x ∷ xs) f (p, h) = (f x p, All-more P Q xs f h)

length-set {ℓ} : {A : Type ℓ} (xs : List A) (k : ℕ) (x : A) → length (set xs k x) ≡ length xs
length-set [] k x = refl
length-set (y ∷ xs) zero x = refl
length-set (y ∷ xs) (suc k) x = ap suc (length-set xs k x)

get_or-set_cases :
    (xs : List Inode) (k x : ℕ) (v d : Inode)
    → ((x ≡ k) × (get_or (set xs k v) x d ≡ v)) ⊎ (get_or (set xs k v) x d ≡ get_or xs x d)
get_or-set_cases [] k x v d = inr refl
get_or-set_cases (y ∷ xs) zero zero v d = inl (refl, refl)
get_or-set_cases (y ∷ xs) zero (suc x) v d = inr refl
get_or-set_cases (y ∷ xs) (suc k) zero v d = inr refl
get_or-set_cases (y ∷ xs) (suc k) (suc x) v d = elim (get_or-set_cases xs k x v d) [
  | inl (e, f) ↦ inl (ap suc e, f)
  | inr e ↦ inr e
]

pub children-put :
    (P : ℕ → Type 0) (name : List ℕ) (child : ℕ) (contents : List (List ℕ × ℕ))
    → P child
    → All P (children contents)
    → All P (children (put name child contents))
unfolding put
children-put P name child [] p h = (p, tt)
children-put P name child (entry ∷ rest) p h = elim (Bool-cases (same_name entry.0 name)) [
  | inl e ↦ rw (e) (p, h.1)
  | inr e ↦ rw (e) (h.0, children-put P name child rest p h.1)
]

pub children-remove :
    (P : ℕ → Type 0) (name : List ℕ) (contents : List (List ℕ × ℕ))
    → All P (children contents)
    → All P (children (remove name contents))
unfolding remove
children-remove P name [] h = tt
children-remove P name (entry ∷ rest) h = elim (Bool-cases (same_name entry.0 name)) [
  | inl e ↦ rw (e) h.1
  | inr e ↦ rw (e) (h.0, children-remove P name rest h.1)
]

pub IsStore-kids : (fs : Filesystem) (x : ℕ) → IsStore fs → AllBelow (length fs.inodes) (kids fs x)
IsStore-kids fs x h =
    All-get_or (λ inode. AllBelow (length fs.inodes) (children (contents_of inode))) fs.inodes x
      (file 0) tt h.below

-- A directory is given other contents, whose children are in the store, and are retained where it is.
pub assign-IsBounded :
    (root dir : ℕ) (contents : List (List ℕ × ℕ)) (fs : Filesystem)
    → AllBelow (length fs.inodes) (children contents)
    → (is_retained fs dir ≡ true → AllRetained fs (children contents))
    → IsBounded root fs
    → IsBounded root (assign dir (directory contents) fs)
assign-IsBounded root dir contents fs low kept h =
    let count = length-set fs.inodes dir (directory contents) in
    record {
      store = record {
        sized = h.store.sized ∙ sym count;
        below =
            subst
              (λ n.
                All (λ inode. AllBelow n (children (contents_of inode)))
                  (set fs.inodes dir (directory contents)))
              (sym count)
              (All-set (λ inode. AllBelow (length fs.inodes) (children (contents_of inode)))
                fs.inodes dir (directory contents) low h.store.below);
      };
      rooted = h.rooted;
      inside = omega (arith, count, h.inside);
      closed = λ x r. elim (get_or-set_cases fs.inodes dir x (directory contents) (file 0)) [
        | inl (e, f) ↦
            subst (λ i. AllRetained fs (children (contents_of i))) (sym f)
              (kept (subst (λ y. is_retained fs y ≡ true) e r))
        | inr f ↦ subst (λ i. AllRetained fs (children (contents_of i))) (sym f) (h.closed x r)
      ];
    }

pub attach-IsBounded :
    (root id : ℕ) (fs : Filesystem) (result : Result Filesystem)
    (a : IsAttached (id ∷ []) fs result)
    → IsBounded root fs
    → IsBounded root a.after
attach-IsBounded root id fs result a h = record {
  store = record {
    sized = a.sized ∙ (h.store.sized ∙ ap length (sym a.store));
    below =
        subst (λ l. All (λ inode. AllBelow (length l) (children (contents_of inode))) l)
          (sym a.store) h.store.below;
  };
  rooted = a.grows root h.rooted;
  inside = subst (λ l. root < length l) (sym a.store) h.inside;
  closed = attach-IsClosed id fs result a h.closed;
}

end-cases :
    (bs : List Bool) (x : ℕ)
    → get_or (bs ++ (false ∷ [])) x true ≡ true
    → ((x < length bs) × (get_or bs x true ≡ true)) ⊎ (length bs < x)
end-cases [] zero h = absurd cc
end-cases [] (suc x) h = inr (omega arith)
end-cases (b ∷ bs) zero h = inl (omega arith, h)
end-cases (b ∷ bs) (suc x) h = elim (end-cases bs x h) [
  | inl (l, e) ↦ inl (omega (arith, l), e)
  | inr l ↦ inr (omega (arith, l))
]

get_or-front :
    {A : Type 0} (xs : List A) (x : A) (k : ℕ) (d : A)
    → k < length xs
    → get_or (xs ++ (x ∷ [])) k d ≡ get_or xs k d
get_or-front [] x k d l = absurd (omega arith)
get_or-front (y ∷ xs) x zero d l = refl
get_or-front (y ∷ xs) x (suc k) d l = get_or-front xs x k d (omega arith)

get_or-past :
    {A : Type 0} (xs : List A) (x : A) (k : ℕ) (d : A)
    → length xs < k
    → get_or (xs ++ (x ∷ [])) k d ≡ d
get_or-past [] x zero d l = absurd (omega arith)
get_or-past [] x (suc k) d l = refl
get_or-past (y ∷ xs) x zero d l = absurd (omega arith)
get_or-past (y ∷ xs) x (suc k) d l = get_or-past xs x k d (omega arith)

kept-made :
    (inode : Inode) (fs : Filesystem) (ids : List ℕ)
    → length fs.retained ≡ length fs.inodes
    → AllBelow (length fs.inodes) ids
    → AllRetained fs ids
    → AllRetained (make inode fs) ids
kept-made inode fs [] e l h = tt
kept-made inode fs (id ∷ ids) e (l, ls) (p, h) = (
  get_or-front fs.retained false id true (omega (arith, l, e)) ∙ p,
  kept-made inode fs ids e ls h,
)

pub make-IsBounded :
    (root : ℕ) (inode : Inode) (fs : Filesystem)
    → children (contents_of inode) ≡ []
    → IsBounded root fs
    → IsBounded root (make inode fs)
make-IsBounded root inode fs empty h =
    let one_more = length-append fs.inodes (inode ∷ []) in
    let sized' = length-append fs.retained (false ∷ []) in
    let n = length (fs.inodes ++ (inode ∷ [])) in
    record {
      store = record {
        sized = omega (arith, one_more, sized', h.store.sized);
        below =
            All-end (λ i. AllBelow n (children (contents_of i))) fs.inodes inode
              (All-more (λ i. AllBelow (length fs.inodes) (children (contents_of i)))
                (λ i. AllBelow n (children (contents_of i))) fs.inodes
                (λ i.
                  All-more (λ id. id < length fs.inodes) (λ id. id < n) (children (contents_of i))
                    (λ id l. omega (arith, l, one_more)))
                h.store.below)
              (subst (AllBelow n) (sym empty) tt);
      };
      rooted =
          get_or-front fs.retained false root true (omega (arith, h.inside, h.store.sized))
          ∙ h.rooted;
      inside = omega (arith, h.inside, one_more);
      closed = λ x r. elim (end-cases fs.retained x r) [
        | inl (l, e) ↦
            subst (λ i. AllRetained (make inode fs) (children (contents_of i)))
              (sym (get_or-front fs.inodes inode x (file 0) (omega (arith, l, h.store.sized))))
              (kept-made inode fs (kids fs x) h.store.sized (IsStore-kids fs x h.store)
                (h.closed x e))
        | inr l ↦
            subst (λ i. AllRetained (make inode fs) (children (contents_of i)))
              (sym (get_or-past fs.inodes inode x (file 0) (omega (arith, l, h.store.sized)))) tt
      ];
    }

pub Reaches-retained :
    (root : ℕ) (fs : Filesystem) (dir : ℕ)
    → IsBounded root fs
    → Reaches fs root dir
    → is_retained fs dir ≡ true
Reaches-retained root fs dir h root_itself = h.rooted
Reaches-retained root fs leaf h (through dir child k r e) =
    All-get (λ id. is_retained fs id ≡ true) (kids fs dir) k child
      (h.closed dir (Reaches-retained root fs dir h r)) e
