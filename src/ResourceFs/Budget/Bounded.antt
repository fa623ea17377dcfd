-- ===== src/ResourceFs/Budget/Bounded.antt =====
-- The accounts of `class ByteBudget` in sdk/typescript/resource-fs.ts, and their bound.
use capnpc_wasm.Common.{
  sym, ◌∙◌, subst, Bool-cases, length-append, get_elem?, ap, String, ℕ, zero, suc, ◌+◌, ◌≤◌, ◌<◌,
  max, ◌≡◌, refl, ap, get_elem?, Bool, true, false, ◌⊎◌, inl, inr, Option, none, some, List, [],
  ◌∷◌, ◌++◌, arith, ltb, get_or, set, length, All, All-append,
}
use capnpc_wasm.Common.Result.{Result, ok, limit_error, throw_if, ◌>>◌}
use capnpc_wasm.ResourceFs.Budget.{
  ℤ, pos, negsuc, ◌+ℤ◌, larger, File, Descriptor, Budget, no_file, file_of, is_over, check, attach,
  open_guarded, bounded_stream, set_data, Effect, resized, assigned, resize_buffer, affect,
  FileMethods, allowed, fd_allocate, fd_filestat_set_size, fd_write, fd_pwrite, Event, created,
  opened, allocate, resize, write, pwrite, settled, on_descriptor, happen, happen_all,
}

-- The bytes that the attached files hold.
abbrev pub held : List File → ℕ
held [] = 0
held (file ∷ files) = file.size + held files

-- A descriptor on an attached file, with the guarded methods.
pub record IsGuarded (files : List File) (descriptor : Descriptor) : Type 0 where
  pub guarded : descriptor.guarded ≡ true
  pub attached : descriptor.file < length files

-- What has been charged is what is held, and each open descriptor is guarded.
pub record IsAccounted (budget : Budget) : Type 0 where
  pub used : budget.used ≡ held budget.files
  pub charged : All (λ file. file.charged ≡ file.size) budget.files
  pub guards : All (IsGuarded budget.files) budget.descriptors

abbrev pub IsAtMost : ℕ → ℤ → Type 0
IsAtMost n (pos m) = n ≤ m
IsAtMost n (negsuc m) = ⊥

-- Where a method changes the data of a file, it assigns data in the end, of at most this length. It may
-- resize the buffer before.
abbrev pub EndsWithin : ℤ → List Effect → Type 0
EndsWithin asked [] = Unit {0}
EndsWithin asked (resized n ∷ []) = ⊥
EndsWithin asked (assigned n ∷ []) = IsAtMost n asked
EndsWithin asked (effect ∷ next ∷ effects) = EndsWithin asked (next ∷ effects)

-- The documented behaviour of the shim's methods: none leaves a file longer than it is or than the end
-- of what is asked, and a resize leaves it no longer than the size asked.
pub record IsWithinAsked (shim : FileMethods) : Type 0 where
  pub allocates :
      (size : ℕ) (offset len : ℤ)
      → EndsWithin (larger (offset +ℤ len) size) (shim.fd_allocate size offset len)
  pub resizes : (old : ℕ) (size : ℤ) → EndsWithin size (shim.fd_filestat_set_size old size)
  pub writes :
      (size : ℕ) (file_pos : ℤ) (count : ℕ)
      → EndsWithin (larger (file_pos +ℤ pos count) size) (shim.fd_write size file_pos count)
  pub pwrites :
      (size : ℕ) (count : ℕ) (offset : ℤ)
      → EndsWithin (larger (offset +ℤ pos count) size) (shim.fd_pwrite size count offset)

held-append : (xs ys : List File) → held (xs ++ ys) ≡ held xs + held ys
held-append [] ys = omega arith
held-append (x ∷ xs) ys = omega (arith, held-append xs ys)

held-set :
    (files : List File) (index : ℕ) (file : File)
    → index < length files
    → held (set files index file) + (get_or files index no_file).size ≡ held files + file.size
held-set [] index file l = absurd (omega arith)
held-set (x ∷ xs) zero file l = omega arith
held-set (x ∷ xs) (suc index) file l = omega (arith, held-set xs index file (omega arith))

abbrev IsCharged : File → Type 0
IsCharged file = file.charged ≡ file.size

IsCharged-get_or :
    (files : List File) (index : ℕ) → All IsCharged files → IsCharged (get_or files index no_file)
IsCharged-get_or [] index h = refl
IsCharged-get_or (x ∷ xs) zero (p, h) = p
IsCharged-get_or (x ∷ xs) (suc index) (p, h) = IsCharged-get_or xs index h

IsCharged-set :
    (files : List File) (index : ℕ) (file : File)
    → IsCharged file
    → All IsCharged files
    → All IsCharged (set files index file)
IsCharged-set [] index file e h = tt
IsCharged-set (x ∷ xs) zero file e (p, h) = (e, h)
IsCharged-set (x ∷ xs) (suc index) file e (p, h) = (p, IsCharged-set xs index file e h)

held-member :
    (files : List File) (index : ℕ)
    → All IsCharged files
    → (get_or files index no_file).charged ≤ held files
held-member [] index h = omega arith
held-member (x ∷ xs) zero (p, h) = omega (arith, p)
held-member (x ∷ xs) (suc index) (p, h) = omega (arith, held-member xs index h)

length-set :
    (files : List File) (index : ℕ) (file : File) → length (set files index file) ≡ length files
length-set [] index file = refl
length-set (x ∷ xs) zero file = refl
length-set (x ∷ xs) (suc index) file = ap suc (length-set xs index file)

set-set :
    (files : List File) (index : ℕ) (a b : File)
    → set (set files index a) index b ≡ set files index b
set-set [] index a b = refl
set-set (x ∷ xs) zero a b = refl
set-set (x ∷ xs) (suc index) a b = ap (λ l. x ∷ l) (set-set xs index a b)

get_or-set :
    (files : List File) (index : ℕ) (a : File)
    → index < length files
    → get_or (set files index a) index no_file ≡ a
get_or-set [] index a l = absurd (omega arith)
get_or-set (x ∷ xs) zero a l = refl
get_or-set (x ∷ xs) (suc index) a l = get_or-set xs index a (omega arith)

set_data-resize_buffer :
    (index m n : ℕ) (budget : Budget)
    → index < length budget.files
    → set_data index n (resize_buffer index m budget) ≡ set_data index n budget
unfolding set_data resize_buffer
set_data-resize_buffer index m n budget l = rw (get_or-set, set-set)

set_data-set_data :
    (index m n : ℕ) (budget : Budget)
    → index < length budget.files
    → (file_of budget index).charged ≤ budget.used
    → set_data index n (set_data index m budget) ≡ set_data index n budget
unfolding set_data
set_data-set_data index m n budget l k =
    rw (get_or-set, set-set)
      (ap
        (λ u. record budget {
          used = u;
          files = set budget.files index (record { size = n; charged = n });
        })
        (omega (arith, k)))

-- Effects that end with an assignment come to the assignment alone.
affect-set_data :
    (index : ℕ) (asked : ℤ) (effect : Effect) (effects : List Effect) (budget : Budget)
    → index < length budget.files
    → (file_of budget index).charged ≤ budget.used
    → EndsWithin asked (effect ∷ effects)
    → (n : ℕ) × IsAtMost n asked
      × (affect index (effect ∷ effects) budget ≡ set_data index n budget)
affect-set_data index asked (resized m) [] budget l k w = absurd w
affect-set_data index asked (assigned m) [] budget l k w = (m, w, refl)
affect-set_data index asked (resized m) (effect ∷ effects) budget l k w =
    let (n, within, e) =
      affect-set_data index asked effect effects (resize_buffer index m budget)
        (unfold resize_buffer in
          omega
            (arith, length-set budget.files index (record (file_of budget index) { size = m }), l))
        (unfold resize_buffer in
          omega (
            arith,
            ap (λ f. f.charged)
                (get_or-set budget.files index (record (file_of budget index) { size = m }) l),
            k,
          ))
        w in
    (n, within, e ∙ set_data-resize_buffer index m n budget l)
affect-set_data index asked (assigned m) (effect ∷ effects) budget l k w =
    let (n, within, e) =
      affect-set_data index asked effect effects (set_data index m budget)
        (unfold set_data in
          omega (arith, length-set budget.files index (record { size = m; charged = m }), l))
        (unfold set_data in
          omega (
            arith,
            ap (λ f. f.charged)
                (get_or-set budget.files index (record { size = m; charged = m }) l),
            k,
          ))
        w in
    (n, within, e ∙ set_data-set_data index m n budget l k)

-- The accounts are right, under the same maximum, and the files hold no more than the maximum, or no
-- more than before.
record IsKept (before after : Budget) : Type 0 where
  same : after.maximum ≡ before.maximum
  accounted : IsAccounted after
  bounded : (held after.files ≤ before.maximum) ⊎ (held after.files ≤ held before.files)

IsKept-same : (budget : Budget) → IsAccounted budget → IsKept budget budget
IsKept-same budget h = record { same = refl; accounted = h; bounded = inr (omega arith) }

-- Guarded descriptors stay so where there are as many files, or more.
guards-more :
    (xs ys : List File) (ds : List Descriptor)
    → length xs ≤ length ys
    → All (IsGuarded xs) ds
    → All (IsGuarded ys) ds
guards-more xs ys [] l h = tt
guards-more xs ys (d ∷ ds) l (g, h) = (
  record { guarded = g.guarded; attached = omega (arith, g.attached, l) },
  guards-more xs ys ds l h,
)

guards-at :
    (files : List File) (ds : List Descriptor) (fd : ℕ) (d : Descriptor)
    → All (IsGuarded files) ds
    → get_elem? ds fd ≡ some d
    → IsGuarded files d
guards-at files [] fd d h e = absurd cc
guards-at files (x ∷ ds) zero d (g, h) e = let same : x ≡ d = cc in subst (IsGuarded files) same g
guards-at files (x ∷ ds) (suc fd) d (g, h) e = guards-at files ds fd d h e

module _ (budget : Budget) (index : ℕ) (there : index < length budget.files)
    (h : IsAccounted budget) where
  set_data-IsKept :
      (asked n : ℕ)
      → n ≤ asked
      → asked + budget.used ≤ budget.maximum + (file_of budget index).size
      → IsKept budget (set_data index n budget)
  unfolding set_data
  set_data-IsKept asked n l k =
      let new : File = record { size = n; charged = n } in
      let moved = held-set budget.files index new there in
      let right = IsCharged-get_or budget.files index h.charged in
      record {
        same = refl;
        accounted = record {
          used = omega (arith, moved, right, h.used);
          charged = IsCharged-set budget.files index new refl h.charged;
          guards =
              guards-more budget.files (set budget.files index new) budget.descriptors
                (omega (arith, length-set budget.files index new)) h.guards;
        };
        bounded = inl (omega (arith, moved, h.used));
      }

  affect-IsKept :
      (m : ℕ) (effects : List Effect)
      → EndsWithin (pos m) effects
      → m + budget.used ≤ budget.maximum + (file_of budget index).size
      → IsKept budget (affect index effects budget)
  affect-IsKept m [] w k = IsKept-same budget h
  affect-IsKept m (effect ∷ effects) w k =
      let paid = held-member budget.files index h.charged in
      let (n, within, e) =
        affect-set_data index (pos m) effect effects budget there (omega (arith, paid, h.used)) w in
      subst (IsKept budget) (sym e) (set_data-IsKept m n within k)

module _ (budget : Budget) (h : IsAccounted budget) (shim : FileMethods) where
  allowed-IsKept :
      (d : Descriptor) (asked : ℤ) (method : ℕ → List Effect)
      → IsGuarded budget.files d
      → EndsWithin asked (method (file_of budget d.file).size)
      → IsKept budget (settled budget (allowed shim d asked method budget))
  unfolding check is_over
  allowed-IsKept d (negsuc m) method g law = rw (g.guarded) (IsKept-same budget h)
  allowed-IsKept d (pos m) method g law =
      rw (g.guarded)
        (go (ltb (budget.maximum + (file_of budget d.file).size) (m + budget.used)) refl)
    where
      go :
          (over : Bool)
          → ltb (budget.maximum + (file_of budget d.file).size) (m + budget.used) ≡ over
          → IsKept budget (
              settled budget (
                throw_if over (limit_error budget.limit)
                >> ok (affect d.file (method (file_of budget d.file).size) budget)))
      go true e = IsKept-same budget h
      go false e =
          affect-IsKept budget d.file g.attached h m (method (file_of budget d.file).size) law
            (ground arith)

  on_descriptor-IsKept :
      (fd : ℕ) (call : Descriptor → Result Budget)
      → ((d : Descriptor) → IsGuarded budget.files d → IsKept budget (settled budget (call d)))
      → IsKept budget (on_descriptor (get_elem? budget.descriptors fd) call budget)
  on_descriptor-IsKept fd call k = go (get_elem? budget.descriptors fd) refl
    where
      go :
          (d : Option Descriptor)
          → get_elem? budget.descriptors fd ≡ d
          → IsKept budget (on_descriptor d call budget)
      go none e = IsKept-same budget h
      go (some d) e = k d (guards-at budget.files budget.descriptors fd d h.guards e)

  open_guarded-IsKept :
      (index : ℕ) (is_file : Bool)
      → index < length budget.files
      → IsKept budget (open_guarded index is_file budget)
  unfolding open_guarded
  open_guarded-IsKept index false l = IsKept-same budget h
  open_guarded-IsKept index true l = record {
    same = refl;
    accounted = record {
      used = h.used;
      charged = h.charged;
      guards =
          All-append (IsGuarded budget.files) budget.descriptors _ h.guards
            (record { guarded = refl; attached = l }, tt);
    };
    bounded = inr (omega arith);
  }

module _ (shim : FileMethods) (law : IsWithinAsked shim) where
  happen-IsKept :
      (event : Event) (budget : Budget)
      → IsAccounted budget
      → IsKept budget (happen shim event budget)
  unfolding happen attach fd_allocate fd_filestat_set_size fd_write fd_pwrite
  happen-IsKept created budget h = record {
    same = refl;
    accounted = record {
      used = omega (arith, h.used, held-append budget.files (no_file ∷ []));
      charged = All-append IsCharged budget.files (no_file ∷ []) h.charged (refl, tt);
      guards =
          guards-more budget.files (budget.files ++ (no_file ∷ [])) budget.descriptors
            (omega (arith, length-append budget.files (no_file ∷ []))) h.guards;
    };
    bounded = inr (omega (arith, held-append budget.files (no_file ∷ [])));
  }
  happen-IsKept (opened index is_file) budget h =
      elim (Bool-cases (ltb index (length budget.files))) [
        | inl e ↦ rw (e) (open_guarded-IsKept budget h shim index is_file (ground arith))
        | inr e ↦ rw (e) (IsKept-same budget h)
      ]
  happen-IsKept (allocate fd offset len) budget h =
      on_descriptor-IsKept budget h shim fd (λ d. fd_allocate shim d offset len budget)
        λ d g.
          allowed-IsKept budget h shim d (larger (offset +ℤ len) (file_of budget d.file).size)
            (λ size. shim.fd_allocate size offset len) g
            (law.allocates (file_of budget d.file).size offset len)
  happen-IsKept (resize fd size) budget h =
      on_descriptor-IsKept budget h shim fd (λ d. fd_filestat_set_size shim d size budget)
        λ d g.
          allowed-IsKept budget h shim d size (λ old. shim.fd_filestat_set_size old size) g
            (law.resizes (file_of budget d.file).size size)
  happen-IsKept (write fd file_pos count) budget h =
      on_descriptor-IsKept budget h shim fd (λ d. fd_write shim d file_pos count budget)
        λ d g.
          allowed-IsKept budget h shim d
            (larger (file_pos +ℤ pos count) (file_of budget d.file).size)
            (λ size. shim.fd_write size file_pos count) g
            (law.writes (file_of budget d.file).size file_pos count)
  happen-IsKept (pwrite fd count offset) budget h =
      on_descriptor-IsKept budget h shim fd (λ d. fd_pwrite shim d count offset budget)
        λ d g.
          allowed-IsKept budget h shim d (larger (offset +ℤ pos count) (file_of budget d.file).size)
            (λ size. shim.fd_pwrite size count offset) g
            (law.pwrites (file_of budget d.file).size count offset)

  -- Whatever files are created and opened, and whatever allocations, resizes and writes are called on
  -- the open descriptors, in any order and with any arguments, where the shim's methods stay within
  -- what they are asked: what is charged is what the files hold, each descriptor is guarded, and the
  -- files hold at most the maximum of the budget, or at most what they held at first where that was
  -- more. The shim may resize the buffer of the data in place before it assigns the data.
  pub happen_all-IsAccounted :
      (events : List Event) (budget : Budget)
      → IsAccounted budget
      → IsAccounted (happen_all shim events budget)
        × (held (happen_all shim events budget).files ≤ max budget.maximum (held budget.files))
  unfolding happen_all
  happen_all-IsAccounted [] budget h = (h, omega arith)
  happen_all-IsAccounted (event ∷ events) budget h =
      let next = happen shim event budget in
      let k : IsKept budget next = happen-IsKept event budget h in
      let (rest, below) = happen_all-IsAccounted events next k.accounted in
      (
        rest,
        elim k.bounded [
          | inl e ↦ omega (arith, below, k.same, e)
          | inr e ↦ omega (arith, below, k.same, e)
        ],
      )

  -- Whatever is done with the descriptor of a bounded stream, and with others opened on its file, the
  -- stream holds no more than its maximum and has been charged for what it holds, where the shim's
  -- methods stay within what they are asked. The descriptor is open on the file of the stream.
  pub bounded_stream-held :
      (maximum : ℕ) (limit : String) (events : List Event)
      → ((d : Descriptor) × (get_elem?
              (bounded_stream maximum limit).0.descriptors
              (bounded_stream maximum limit).1
            ≡ some d)
          × (d.file ≡ 0))
        × ((happen_all shim events (bounded_stream maximum limit).0).used
            ≡ held (happen_all shim events (bounded_stream maximum limit).0).files)
        × (held (happen_all shim events (bounded_stream maximum limit).0).files ≤ maximum)
  unfolding bounded_stream attach open_guarded
  bounded_stream-held maximum limit events =
      let (accounted, below) =
        happen_all-IsAccounted events (bounded_stream maximum limit).0 (record {
          used = refl;
          charged = (refl, tt);
          guards = (record { guarded = refl; attached = omega arith }, tt);
        }) in
      ((_, refl, refl), accounted.used, omega (arith, below))
