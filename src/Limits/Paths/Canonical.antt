-- ===== src/Limits/Paths/Canonical.antt =====
-- Which paths `checkPath` of sdk/typescript/limits.ts accepts.
use capnpc_wasm.Common.{
  ℕ, ◌≤◌, ◌≡◌, ◌≢◌, ◌↔◌, refl, ap, ap₂, ◌∙◌, sym, Bool, false, List, [], ◌∷◌, arith, length, ltb,
  ◌==◌, All, Bool-cases, ==_iff, inl, inr,
}
use capnpc_wasm.Common.Result.{ok}
use capnpc_wasm.Limits.Utf8.{Text, encode, code_points, utf8_size}
use capnpc_wasm.Limits.Utf8.Size.{utf8_size-encode}
use capnpc_wasm.Limits.Paths.{text, any, split, is_lone, is_forbidden, is_bad, check_path}
use capnpc_wasm.Limits.Paths.Split.{join, IsPart, split-join, Parts-split}

-- A name of a file or a directory.
pub record IsName (part : Text) : Type 0 where
  pub no_slash : IsPart part
  pub no_empty : part ≢ []
  pub no_dot : part ≢ 0x2e ∷ []
  pub no_dots : part ≢ 0x2e ∷ 0x2e ∷ []

-- A canonical relative path: names joined by slashes, in Unicode, with no backslash and no NUL.
pub record IsCanonical (path : Text) : Type 0 where
  pub first : Text
  pub others : List Text
  pub names : All IsName (first ∷ others)
  pub joined : path ≡ join (first ∷ others)
  pub unicode : All (λ code. is_lone code ≡ false) (code_points path)
  pub units : All (λ unit. (unit ≢ 0x5c) × (unit ≢ 0)) path

all_of_any :
    {A : Type 0} (p : A → Bool) (xs : List A) → any p xs ≡ false → All (λ x. p x ≡ false) xs
all_of_any p [] h = tt
all_of_any p (x ∷ xs) h = (ground arith, all_of_any p xs (ground arith))

any_of_all :
    {A : Type 0} (p : A → Bool) (xs : List A) → All (λ x. p x ≡ false) xs → any p xs ≡ false
any_of_all p [] h = refl
any_of_all p (x ∷ xs) (e, h) = rw e (any_of_all p xs h)

pub All-map {ℓ κ} :
    {A : Type ℓ} {P Q : A → Type κ} (f : (x : A) → P x → Q x) (xs : List A) → All P xs → All Q xs
All-map f [] h = tt
All-map f (x ∷ xs) (p, h) = (f x p, All-map f xs h)

is_bad-IsName : (part : Text) → IsName part → is_bad part ≡ false
unfolding is_bad
is_bad-IsName [] n = absurd (n.no_empty refl)
is_bad-IsName (a ∷ []) n = elim (Bool-cases (a == 0x2e)) [
  | inl e ↦ absurd (n.no_dot (ap (λ t. t ∷ []) ((==_iff a 0x2e).0 e)))
  | inr e ↦ e
]
is_bad-IsName (a ∷ b ∷ []) n = elim (Bool-cases (a == 0x2e)) [
  | inl e ↦ elim (Bool-cases (b == 0x2e)) [
    | inl k ↦
        absurd (n.no_dots (ap₂ (λ t u. t ∷ u ∷ []) ((==_iff a 0x2e).0 e) ((==_iff b 0x2e).0 k)))
    | inr k ↦ rw (e, k)
  ]
  | inr e ↦ rw e
]
is_bad-IsName (a ∷ b ∷ c ∷ part) n = refl

IsName-is_bad : (part : Text) → IsPart part → is_bad part ≡ false → IsName part
unfolding is_bad
IsName-is_bad part p h = record {
  no_slash = p;
  no_empty = λ e. ground (arith, sym h ∙ ap is_bad e);
  no_dot = λ e. ground (arith, sym h ∙ ap is_bad e);
  no_dots = λ e. ground (arith, sym h ∙ ap is_bad e);
}

names_of :
    (parts : List Text) → All IsPart parts → All (λ p. is_bad p ≡ false) parts → All IsName parts
names_of [] h k = tt
names_of (part ∷ parts) (p, h) (e, k) = (IsName-is_bad part p e, names_of parts h k)

-- `checkPath` accepts exactly the strings that are canonical relative paths and take at most
-- `pathBytes` bytes in UTF-8.
pub check_path_iff :
    (path : Text) (path_bytes : ℕ)
    → (check_path (text path) path_bytes ≡ ok path)
      ↔ (IsCanonical path × (length (encode path) ≤ path_bytes))
unfolding check_path
check_path_iff path path_bytes = (accepted, accepts)
  where
    accepted :
        check_path (text path) path_bytes ≡ ok path
        → IsCanonical path × (length (encode path) ≤ path_bytes)
    accepted h =
        let size = utf8_size-encode path path_bytes in
        let fits : ltb path_bytes (utf8_size path path_bytes) ≡ false = ground arith in
        let plain : any is_forbidden path ≡ false = ground arith in
        let unicode : any is_lone (code_points path) ≡ false = ground arith in
        let good : any is_bad (split path) ≡ false = ground arith in
        let r = Parts-split path in
        (
          record {
            first = r.first;
            others = r.others;
            names =
                names_of (r.first ∷ r.others) r.parts
                  (all_of_any is_bad (r.first ∷ r.others) (rw r.splits at good));
            joined = sym r.joins;
            unicode = all_of_any is_lone (code_points path) unicode;
            units =
                All-map (λ u e. (λ q. ground arith, λ q. ground arith)) path
                  (all_of_any is_forbidden path plain);
          },
          ground arith,
        )

    accepts :
        IsCanonical path × (length (encode path) ≤ path_bytes)
        → check_path (text path) path_bytes ≡ ok path
    accepts (c, k) =
        let size = utf8_size-encode path path_bytes in
        let fits : ltb path_bytes (utf8_size path path_bytes) ≡ false = ground arith in
        let plain : any is_forbidden path ≡ false =
          any_of_all is_forbidden path (All-map (λ u e. ground arith) path c.units) in
        let unicode : any is_lone (code_points path) ≡ false =
          any_of_all is_lone (code_points path) c.unicode in
        let parts =
          split-join c.others c.first (All-map (λ p n. n.no_slash) (c.first ∷ c.others) c.names) in
        let good : any is_bad (split path) ≡ false =
          rw (c.joined, parts)
            (any_of_all is_bad (c.first ∷ c.others)
              (All-map is_bad-IsName (c.first ∷ c.others) c.names)) in
        rw (fits, plain, unicode, good)
