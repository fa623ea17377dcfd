-- ===== src/ResourceFs/Budget.antt =====
-- `class ByteBudget` of sdk/typescript/resource-fs.ts, with the files attached to it. What the shim's
-- own methods do to a file is a parameter.
pub mod Bounded
use capnpc_wasm.Common.{
  ℕ, zero, suc, ◌+◌, ◌-◌, ◌≤◌, Bool, true, false, ◌||◌, String, Option, none, some, List, [], ◌∷◌,
  ◌++◌, ltb, if◌then◌else◌, get_or, set, length, get_elem?, map,
}
use capnpc_wasm.Common.Result.{Error, Result, ok, err, limit_error, throw_if, ◌>>◌}

-- A bigint. A size from a guest may be negative.
pub data ℤ : Type 0 where
  pos negsuc : ℕ → ℤ

infixl 6 ◌+ℤ◌
abbrev pub ◌+ℤ◌ : ℤ → ℤ → ℤ
pos m +ℤ pos n = pos (m + n)
pos m +ℤ negsuc n = if ltb n m then pos (m - suc n) else negsuc (n - m)
negsuc m +ℤ pos n = if ltb m n then pos (n - suc m) else negsuc (m - n)
negsuc m +ℤ negsuc n = negsuc (suc (m + n))

-- `size > n`
abbrev pub exceeds : ℤ → ℕ → Bool
exceeds (pos m) n = ltb n m
exceeds (negsuc m) n = false

-- `end > file.size ? end : file.size`
unfoldable pub larger : ℤ → ℕ → ℤ
larger end size = if exceeds end size then end else pos size

-- A file: the length of its data, and the size that has been charged for it. The two differ where the
-- shim has resized the buffer of the data in place.
pub record File : Type 0 where
  pub size : ℕ
  pub charged : ℕ

-- An OpenFile: the file that it is open on, and whether its methods are the guarded ones.
pub record Descriptor : Type 0 where
  pub file : ℕ
  pub guarded : Bool

-- The fields of the class, the files that have been attached, and the descriptors that have been
-- opened on them.
pub record Budget : Type 0 where
  pub maximum : ℕ
  pub limit : String
  pub used : ℕ
  pub files : List File
  pub descriptors : List Descriptor

abbrev pub no_file : File
no_file = record { size = 0; charged = 0 }

abbrev pub file_of : Budget → ℕ → File
file_of budget index = get_or budget.files index no_file

-- `size < 0n || size > BigInt(this.maximum - this.used + file.data.length)`; the difference may be
-- below zero.
unfoldable pub is_over : Budget → File → ℤ → Bool
is_over budget file (negsuc n) = true
is_over budget file (pos n) = ltb (budget.maximum + file.size) (n + budget.used)

unfoldable pub check : Budget → File → ℤ → Result (Unit {0})
check budget file size = throw_if (is_over budget file size) (limit_error budget.limit)

-- `attach` of a file with this much data.
unfoldable pub attach : ℕ → Budget → Budget
attach size budget = record budget {
  used = budget.used + size;
  files = budget.files ++ (record { size = size; charged = size } ∷ []);
}

-- `guard` of a descriptor.
abbrev pub guard : Descriptor → Descriptor
guard descriptor = record descriptor { guarded = true }

-- `file.path_open` of an attached file. The shim's own gives an OpenFile on the file, or another
-- `fd_obj`, which has none of these methods.
unfoldable pub open_guarded : ℕ → Bool → Budget → Budget
open_guarded index true budget = record budget {
  descriptors = budget.descriptors ++ (guard (record { file = index; guarded = false }) ∷ []);
}
open_guarded index false budget = budget

-- `boundedStream`: an empty file under a budget of its own, and the descriptor that is opened on it.
unfoldable pub bounded_stream : ℕ → String → Budget × ℕ
bounded_stream maximum limit =
    let attached =
      attach 0
        (record { maximum = maximum; limit = limit; used = 0; files = []; descriptors = [] }) in
    (open_guarded 0 true attached, 0)

-- The setter of `file.data`. It charges the difference to what was charged, not to the length that
-- the data has by then.
unfoldable pub set_data : ℕ → ℕ → Budget → Budget
set_data index size budget = record budget {
  used = budget.used + size - (file_of budget index).charged;
  files = set budget.files index (record { size = size; charged = size });
}

-- What a method of the shim does to `file.data`: it resizes the buffer in place, which the getter
-- shows, or it assigns data of a length.
pub data Effect : Type 0 where
  resized assigned : ℕ → Effect

unfoldable pub resize_buffer : ℕ → ℕ → Budget → Budget
resize_buffer index size budget = record budget {
  files = set budget.files index (record (file_of budget index) { size = size });
}

abbrev pub affect : ℕ → List Effect → Budget → Budget
affect index [] budget = budget
affect index (resized size ∷ effects) budget =
    affect index effects (resize_buffer index size budget)
affect index (assigned size ∷ effects) budget = affect index effects (set_data index size budget)

-- The pinned shim's methods of an open file, each on the length of its data; a descriptor's position
-- is an argument of a write.
pub record FileMethods : Type 0 where
  pub fd_allocate : ℕ → ℤ → ℤ → List Effect
  pub fd_filestat_set_size : ℕ → ℤ → List Effect
  pub fd_write : ℕ → ℤ → ℕ → List Effect
  pub fd_pwrite : ℕ → ℕ → ℤ → List Effect

module _ (shim : FileMethods) where
  -- A method of a descriptor: the guarded one checks, and calls the shim's own.
  abbrev pub allowed : Descriptor → ℤ → (ℕ → List Effect) → Budget → Result Budget
  allowed descriptor size method budget =
      (if descriptor.guarded then check budget (file_of budget descriptor.file) size else ok tt)
      >> ok (affect descriptor.file (method (file_of budget descriptor.file).size) budget)

  unfoldable pub fd_allocate : Descriptor → ℤ → ℤ → Budget → Result Budget
  fd_allocate descriptor offset len budget =
      allowed descriptor (larger (offset +ℤ len) (file_of budget descriptor.file).size)
        (λ size. shim.fd_allocate size offset len) budget

  unfoldable pub fd_filestat_set_size : Descriptor → ℤ → Budget → Result Budget
  fd_filestat_set_size descriptor size budget =
      allowed descriptor size (λ old. shim.fd_filestat_set_size old size) budget

  unfoldable pub fd_write : Descriptor → ℤ → ℕ → Budget → Result Budget
  fd_write descriptor file_pos count budget =
      allowed descriptor (larger (file_pos +ℤ pos count) (file_of budget descriptor.file).size)
        (λ size. shim.fd_write size file_pos count) budget

  unfoldable pub fd_pwrite : Descriptor → ℕ → ℤ → Budget → Result Budget
  fd_pwrite descriptor count offset budget =
      allowed descriptor (larger (offset +ℤ pos count) (file_of budget descriptor.file).size)
        (λ size. shim.fd_pwrite size count offset) budget

-- A file that is created, one that is opened, or a call on an open descriptor.
pub data Event : Type 0 where
  created : Event
  opened : ℕ → Bool → Event
  allocate : ℕ → ℤ → ℤ → Event
  resize : ℕ → ℤ → Event
  write : ℕ → ℤ → ℕ → Event
  pwrite : ℕ → ℕ → ℤ → Event

abbrev pub settled : Budget → Result Budget → Budget
settled budget (ok next) = next
settled budget _ = budget

-- A call on a descriptor that is open. A call that throws has changed nothing.
abbrev pub on_descriptor : Option Descriptor → (Descriptor → Result Budget) → Budget → Budget
on_descriptor none call budget = budget
on_descriptor (some descriptor) call budget = settled budget (call descriptor)

unfoldable pub happen : FileMethods → Event → Budget → Budget
happen shim created budget = attach 0 budget
happen shim (opened index is_file) budget =
    if ltb index (length budget.files) then open_guarded index is_file budget else budget
happen shim (allocate fd offset len) budget =
    on_descriptor (get_elem? budget.descriptors fd) (λ d. fd_allocate shim d offset len budget)
      budget
happen shim (resize fd size) budget =
    on_descriptor (get_elem? budget.descriptors fd) (λ d. fd_filestat_set_size shim d size budget)
      budget
happen shim (write fd file_pos count) budget =
    on_descriptor (get_elem? budget.descriptors fd) (λ d. fd_write shim d file_pos count budget)
      budget
happen shim (pwrite fd count offset) budget =
    on_descriptor (get_elem? budget.descriptors fd) (λ d. fd_pwrite shim d count offset budget)
      budget

-- One event after the other.
unfoldable pub happen_all : FileMethods → List Event → Budget → Budget
happen_all shim [] budget = budget
happen_all shim (event ∷ events) budget = happen_all shim events (happen shim event budget)
