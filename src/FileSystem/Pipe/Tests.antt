-- ===== src/FileSystem/Pipe/Tests.antt =====
-- Runs of a pipe, and its theorems at concrete states.
use ultra_os.Common.{
  ℕ, zero, suc, ◌≡◌, ◌≢◌, refl, ◌⊎◌, Bool, true, false, List, [], ◌∷◌, replicate, length-replicate,
  some, ok, arith,
}
use ultra_os.Memory.Page.{round_up}
use ultra_os.FileSystem.Errors.{memory_access_violation}
use ultra_os.FileSystem.Pipe.{
  State, Pipe, reader, writer, read, write, create, clone, block_until_readable, wake_readers,
  wake_writers, read_loop,
}
use ultra_os.FileSystem.Pipe.Contents.{IsValid}
use ultra_os.FileSystem.Pipe.Read.{Took, read_takes_oldest, read_error_keeps}
use ultra_os.FileSystem.Pipe.Write.{Gave, write_appends}
use ultra_os.FileSystem.Pipe.Wakeup.{start, next, clones, waits_readable, IsAwake, no_lost_wakeup}

-- Four bytes of room, three bytes held, and the oldest at the last place.
abbrev wrapping : State
wrapping = record {
  reader_count = 1;
  writer_count = 1;
  read_offset = 3;
  write_offset = 2;
  capacity = 4;
  size = 3;
  read_waiters = [];
  write_waiters = [];
  buffer = 20 ∷ 30 ∷ 99 ∷ 10 ∷ [];
  woken = [];
}

wrapping-IsValid : IsValid wrapping
wrapping-IsValid = record {
  region = refl;
  room = omega arith;
  read_in = omega arith;
  fits = omega arith;
  write_at = refl;
}

abbrev read_end : Pipe
read_end = record { side = reader; is_closed = false }

abbrev write_end : Pipe
write_end = record { side = writer; is_closed = false }

abbrev everywhere : ℕ → ℕ → Bool
everywhere offset n = true

read_takes_oldest_example :
    (t : State) × (s' : State) × (read everywhere read_end 2 wrapping
      ≡ some (ok (2, 10 ∷ 20 ∷ []), s'))
    × Took wrapping 2 t
    × (((wrapping.size ≡ 0) × (s' ≡ wrapping)) ⊎ ((wrapping.size ≢ 0) × (s' ≡ wake_writers t)))
read_takes_oldest_example =
    read_takes_oldest everywhere read_end 2 wrapping wrapping-IsValid refl refl (λ o n h. refl)

write_appends_example :
    (t : State) × (s' : State) × (write everywhere write_end (40 ∷ 50 ∷ []) wrapping
      ≡ some (ok 1, s'))
    × Gave wrapping (40 ∷ []) 1 t
    × (((wrapping.size ≡ wrapping.capacity) × (s' ≡ wrapping))
        ⊎ ((wrapping.size ≢ wrapping.capacity) × (s' ≡ wake_readers t)))
write_appends_example =
    write_appends everywhere write_end (40 ∷ 50 ∷ []) wrapping wrapping-IsValid refl refl
      (λ o n h. refl)

-- The copies to the user's buffer fault from its second byte on.
abbrev first_only : ℕ → ℕ → Bool
first_only zero n = true
first_only (suc o) n = false

read_error_keeps_example : wrapping ≡ wrapping
unfolding read read_loop
read_error_keeps_example =
    read_error_keeps first_only read_end 3 wrapping wrapping memory_access_violation refl

-- One byte is held, at the place before the last: a write of two bytes takes two copies.
abbrev half : State
half = record wrapping { read_offset = 2; write_offset = 3; size = 1; buffer = 0 ∷ 0 ∷ 10 ∷ 0 ∷ [] }

abbrev half_written : State
half_written = record half { buffer = 0 ∷ 0 ∷ 10 ∷ 1 ∷ [] }

-- A new pipe of one page, whose one read end goes to sleep.
abbrev empty_byte : ℕ
empty_byte = 0

abbrev page_of_zeros : List ℕ
page_of_zeros = replicate 4096 empty_byte

abbrev fresh : State
fresh = record {
  reader_count = 1;
  writer_count = 0;
  read_offset = 0;
  write_offset = 0;
  capacity = 4096;
  size = 0;
  read_waiters = [];
  write_waiters = [];
  buffer = page_of_zeros;
  woken = [];
}

abbrev with_writer : State
with_writer = (clone read_end writer fresh).1

abbrev asleep : State
asleep = (block_until_readable read_end 7 with_writer).1

sleeps_on_list : asleep.read_waiters ≡ 7 ∷ []
unfolding block_until_readable clone
sleeps_on_list = refl

no_lost_wakeup_example : IsValid asleep × IsAwake asleep
unfolding create round_up
no_lost_wakeup_example =
    no_lost_wakeup reader 1 page_of_zeros read_end fresh asleep (omega arith) refl
      (length-replicate 4096 empty_byte)
      (next (next start (clones read_end writer)) (waits_readable read_end 7))
