-- ===== src/ResourceFs/BudgetTests.antt =====
-- The byte budget and the descriptor ceiling of sdk/typescript/resource-fs.ts on concrete shims.
use capnpc_wasm.Common.{
  ℕ, zero, suc, ◌+◌, ◌≤◌, ◌≡◌, refl, max, Bool, true, false, not, ◌&&◌, some, List, [], ◌∷◌, arith,
  get_or, get_elem?, set,
}
use capnpc_wasm.Common.Result.{err, limit_error}
use capnpc_wasm.ResourceFs.Budget.{
  ℤ, pos, negsuc, ◌+ℤ◌, larger, Descriptor, Budget, is_over, check, attach, open_guarded,
  bounded_stream, set_data, Effect, resized, assigned, resize_buffer, FileMethods, fd_allocate,
  fd_filestat_set_size, fd_write, Event, created, opened, resize, write, happen, happen_all,
}
use capnpc_wasm.ResourceFs.Budget.Bounded.{
  held, EndsWithin, IsAccounted, IsWithinAsked, happen_all-IsAccounted, bounded_stream-held,
}
use capnpc_wasm.ResourceFs.Descriptors.{
  Table, count_live, returned, answered, Imports, path_open, Request, opening, releasing, serve,
  serve_all,
}
use capnpc_wasm.ResourceFs.Descriptors.Live.{one_if, IsTable, serve_all_live}

-- Methods that resize the buffer of a file in place and then assign its data, as the shim does.
abbrev to_size : ℤ → List Effect
to_size (pos n) = resized n ∷ assigned n ∷ []
to_size (negsuc n) = []

abbrev exact : FileMethods
exact = record {
  fd_allocate = λ size offset len. to_size (larger (offset +ℤ len) size);
  fd_filestat_set_size = λ old size. to_size size;
  fd_write = λ size file_pos count. to_size (larger (file_pos +ℤ pos count) size);
  fd_pwrite = λ size count offset. to_size (larger (offset +ℤ pos count) size);
}

to_size-EndsWithin : (z : ℤ) → EndsWithin z (to_size z)
to_size-EndsWithin (pos m) = omega arith
to_size-EndsWithin (negsuc m) = tt

exact-IsWithinAsked : IsWithinAsked exact
exact-IsWithinAsked = record {
  allocates = λ size offset len. to_size-EndsWithin (larger (offset +ℤ len) size);
  resizes = λ old size. to_size-EndsWithin size;
  writes = λ size file_pos count. to_size-EndsWithin (larger (file_pos +ℤ pos count) size);
  pwrites = λ size count offset. to_size-EndsWithin (larger (offset +ℤ pos count) size);
}

-- A budget of 100 bytes, with 10 in use, and a descriptor on the file.
abbrev on_first : Descriptor
on_first = record { file = 0; guarded = true }

abbrev hundred : Budget
hundred = record {
  maximum = 100;
  limit = "outputBytes";
  used = 10;
  files = record { size = 10; charged = 10 } ∷ [];
  descriptors = on_first ∷ [];
}

abbrev events : List Event
events = created ∷ opened 1 true ∷ write 1 (pos 0) 80 ∷ write 1 (pos 80) 20 ∷ resize 0 (pos 5) ∷ []

-- The second write would make 110 bytes.
events-held :
    (held (happen_all exact events hundred).files ≡ 85)
    × ((happen_all exact events hundred).used ≡ 85)
unfolding happen_all happen attach open_guarded fd_write fd_filestat_set_size check is_over set_data
    resize_buffer larger
events-held = (refl, refl)

refused : fd_allocate exact on_first (pos 90) (pos 11) hundred ≡ err (limit_error "outputBytes")
unfolding fd_allocate check is_over larger
refused = refl

refused_negative :
    fd_filestat_set_size exact on_first (negsuc 0) hundred ≡ err (limit_error "outputBytes")
unfolding fd_filestat_set_size check is_over
refused_negative = refl

happen_all-IsAccounted_example :
    IsAccounted (happen_all exact events hundred)
    × (held (happen_all exact events hundred).files ≤ max 100 10)
happen_all-IsAccounted_example =
    happen_all-IsAccounted exact exact-IsWithinAsked events hundred (record {
      used = refl;
      charged = (refl, tt);
      guards = (record { guarded = refl; attached = omega arith }, tt);
    })

abbrev stream : Budget × ℕ
stream = bounded_stream 4 "stderrBytes"

abbrev writes : List Event
writes = write 0 (pos 0) 3 ∷ write 0 (pos 3) 2 ∷ []

bounded_stream-held_example :
    ((d : Descriptor) × (get_elem? stream.0.descriptors stream.1 ≡ some d) × (d.file ≡ 0))
    × ((happen_all exact writes stream.0).used ≡ held (happen_all exact writes stream.0).files)
    × (held (happen_all exact writes stream.0).files ≤ 4)
bounded_stream-held_example = bounded_stream-held exact exact-IsWithinAsked 4 "stderrBytes" writes

-- An open that takes the first slot, and a close that empties the slot.
abbrev slots : Imports (Unit {0})
slots = record {
  errno_inval = 28;
  errno_nfile = 41;
  open_file = λ call fds. returned 0 (true ∷ fds);
  release_slot = λ call fd fds. returned 0 (set fds fd false);
}

count-set :
    (fds : List Bool) (fd : ℕ)
    → count_live (set fds fd false)
        + one_if (get_or fds fd false && not (get_or (set fds fd false) fd false))
      ≡ count_live fds
unfolding count_live
count-set [] fd = refl
count-set (true ∷ fds) zero = omega arith
count-set (false ∷ fds) zero = omega arith
count-set (true ∷ fds) (suc fd) = omega (arith, count-set fds fd)
count-set (false ∷ fds) (suc fd) = count-set fds fd

slots-IsTable : IsTable slots
slots-IsTable = record {
  opens = λ call fds. unfold count_live in omega arith;
  releases = λ call fd fds. count-set fds fd;
}

abbrev three : Table
three = record { fds = true ∷ true ∷ true ∷ []; live = 3 }

abbrev requests : List (Request (Unit {0}))
requests = opening tt 16 64 ∷ opening tt 61 64 ∷ releasing tt 2 ∷ releasing tt 2 ∷ []

-- The second open has no room for its result, and the second close finds an empty slot.
requests_live : (serve_all slots requests three).live ≡ 3
unfolding serve_all serve path_open capnpc_wasm.ResourceFs.Descriptors.release
requests_live = refl

serve_all_live_example :
    ((serve_all slots requests three).live ≡ count_live (serve_all slots requests three).fds)
    × (count_live (serve_all slots requests three).fds ≤ max 1024 (count_live three.fds))
serve_all_live_example =
    serve_all_live slots slots-IsTable requests three (unfold count_live in refl)
