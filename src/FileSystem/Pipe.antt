-- ===== src/FileSystem/Pipe.antt =====
-- Kernel/FileSystem/Pipe.{h,cpp}: a byte pipe between threads. The object a caller holds is `Pipe`;
-- the `State` that its clones share is passed along. A thread is its number; a blocker on a waiter
-- list is its thread, and `unblock()` puts the thread into `woken`. `safe_copy_memory` stops at an
-- address of the user's buffer that faults: `reachable n` says whether a copy of `n` bytes at an
-- offset of that buffer goes through.
pub mod Contents
pub mod Read
pub mod Write
pub mod Loops
pub mod Wakeup
mod Tests
use ultra_os.Common.{
  ℕ, zero, suc, ◌+◌, ◌-◌, ◌<◌, Bool, true, false, ltb, ◌==◌, if◌then◌else◌, Result, Fault,
  assertion, guard, not, ◌>>◌, ok, err, List, [], ◌∷◌, ◌++◌, Option, none, some, length, get_or,
  set, take, drop, tabulate,
}
use ultra_os.Memory.Page.{round_up}
use ultra_os.Memory.Range.{min_of}
use ultra_os.FileSystem.Errors.{
  ErrorCode, ErrorOr, no_error, access_denied, stream_closed, would_block_forever,
  memory_access_violation,
}

pub data Side : Type 0 where
  reader writer : Side

pub record State : Type 0 where
  pub reader_count : ℕ
  pub writer_count : ℕ
  pub read_offset : ℕ
  pub write_offset : ℕ
  pub capacity : ℕ
  pub size : ℕ
  pub read_waiters : List ℕ
  pub write_waiters : List ℕ
  pub buffer : List ℕ
  pub woken : List ℕ

pub record Pipe : Type 0 where
  pub side : Side
  pub is_closed : Bool

-- The count that a new end raises.
abbrev pub count_end : Side → State → State
count_end reader s = record s { reader_count = s.reader_count + 1 }
count_end writer s = record s { writer_count = s.writer_count + 1 }

-- `Pipe(Side, size_t)`; `buffer` is the fresh region of the rounded capacity.
unfoldable pub create : Side → ℕ → List ℕ → Result Fault (Pipe × State)
create side capacity buffer = do
  guard (not (capacity == 0)) assertion
  ok (
    record { side = side; is_closed = false },
    count_end side (record {
      reader_count = 0;
      writer_count = 0;
      read_offset = 0;
      write_offset = 0;
      capacity = round_up capacity;
      size = 0;
      read_waiters = [];
      write_waiters = [];
      buffer = buffer;
      woken = [];
    }),
  )

-- `clone(Side)`.
unfoldable pub clone : Pipe → Side → State → ErrorOr Pipe × State
clone p side s =
    if p.is_closed
    then (err stream_closed, s)
    else (ok (record { side = side; is_closed = false }), count_end side s)

-- The bytes that one `safe_copy_memory` takes out of the buffer.
abbrev pub copy_out : List ℕ → ℕ → ℕ → List ℕ
copy_out buffer offset n = tabulate n (λ i. get_or buffer (offset + i) 0)

-- The buffer after one `safe_copy_memory` into it.
unfoldable pub copy_in : List ℕ → ℕ → List ℕ → List ℕ
copy_in buffer offset [] = buffer
copy_in buffer offset (x ∷ xs) = copy_in (set buffer offset x) (offset + 1) xs

abbrev pub wrap_offset : ℕ → ℕ → ℕ
wrap_offset capacity offset = if offset == capacity then 0 else offset

-- How a copy loop ends.
pub data Copied : Type 0 where
  finished : List ℕ → State → Copied
  faulted : State → Copied
  no_fuel : Copied

-- `while (bytes_to_read)`, with `out` the bytes that the user's buffer has so far.
unfoldable pub read_loop : (ℕ → ℕ → Bool) → ℕ → ℕ → List ℕ → State → Copied
read_loop reachable zero bytes out s = if bytes == 0 then finished out s else no_fuel
read_loop reachable (suc fuel) bytes out s =
    let n = min_of bytes (s.capacity - s.read_offset) in
    let rest =
      read_loop reachable fuel (bytes - n) (out ++ copy_out s.buffer s.read_offset n) (record s {
        read_offset = wrap_offset s.capacity (s.read_offset + n);
        size = s.size - n;
      }) in
    if bytes == 0 then finished out s else if reachable (length out) n then rest else faulted s

-- Unblocking every waiter, front first.
abbrev pub wake_writers : State → State
wake_writers s = record s { write_waiters = []; woken = s.woken ++ s.write_waiters }

abbrev pub wake_readers : State → State
wake_readers s = record s { read_waiters = []; woken = s.woken ++ s.read_waiters }

-- What `read` returns: the count and the bytes that were copied.
abbrev pub Bytes : Type 0
Bytes = ErrorOr (ℕ × List ℕ)

unfoldable pub end_read : State → ℕ → Copied → Option (Bytes × State)
end_read s n (finished out s') = some (ok (n, out), wake_writers s')
end_read s n (faulted s') =
    some (err memory_access_violation, record s' { read_offset = s.read_offset; size = s.size })
end_read s n no_fuel = none

-- `none` would mean that the loop does not end; the fuel is the count of bytes.
unfoldable pub read : (ℕ → ℕ → Bool) → Pipe → ℕ → State → Option (Bytes × State)
unfolding end_read
read reachable p bytes s = elim p.side [
  | writer ↦ some (err access_denied, s)
  | reader ↦
      if p.is_closed
      then some (err stream_closed, s)
      else if s.size == 0
      then some (ok (0, []), s)
      else (let n = min_of bytes s.size in end_read s n (read_loop reachable n n [] s))
]

-- `while (byte_to_write)`, with `input` the bytes of the user's buffer from the current one on.
unfoldable pub write_loop : (ℕ → ℕ → Bool) → ℕ → ℕ → ℕ → List ℕ → State → Copied
write_loop reachable zero position bytes input s = if bytes == 0 then finished [] s else no_fuel
write_loop reachable (suc fuel) position bytes input s =
    let n = min_of bytes (s.capacity - s.write_offset) in
    let rest = write_loop reachable fuel (position + n) (bytes - n) (drop n input) (record s {
      buffer = copy_in s.buffer s.write_offset (take n input);
      write_offset = wrap_offset s.capacity (s.write_offset + n);
      size = s.size + n;
    }) in
    if bytes == 0 then finished [] s else if reachable position n then rest else faulted s

unfoldable pub end_write : State → ℕ → Copied → Option (ErrorOr ℕ × State)
end_write s n (finished out s') = some (ok n, wake_readers s')
end_write s n (faulted s') =
    some (err memory_access_violation, record s' { write_offset = s.write_offset; size = s.size })
end_write s n no_fuel = none

-- `bytes` is the length of `input`.
unfoldable pub write : (ℕ → ℕ → Bool) → Pipe → List ℕ → State → Option (ErrorOr ℕ × State)
unfolding end_write
write reachable p input s = elim p.side [
  | reader ↦ some (err access_denied, s)
  | writer ↦
      if p.is_closed
      then some (err stream_closed, s)
      else if s.capacity - s.size == 0
      then some (ok 0, s)
      else (let n = min_of (length input) (s.capacity - s.size) in
          end_write s n (write_loop reachable n 0 n input s))
]

-- `close`; a count is at least 1 while an end of that side is open.
unfoldable pub close : Pipe → State → ErrorCode × Pipe × State
close p s = if p.is_closed then (stream_closed, p, s) else (
  no_error,
  record p { is_closed = true },
  elim p.side [
    | reader ↦
        (let s' = record s { reader_count = s.reader_count - 1 } in
          if s'.reader_count == 0 then wake_writers s' else s')
    | writer ↦
        (let s' = record s { writer_count = s.writer_count - 1 } in
          if s'.writer_count == 0 then wake_readers s' else s')
  ],
)

-- What the first critical section of `block_until_*` does: return, or go to sleep on the list.
pub data Blocking : Type 0 where
  returns : ErrorCode → Blocking
  unblocked : Blocking
  sleeps : Blocking

unfoldable pub block_until_readable : Pipe → ℕ → State → Blocking × State
block_until_readable p thread s = elim p.side [
  | writer ↦ (returns access_denied, s)
  | reader ↦
      if p.is_closed
      then (returns stream_closed, s)
      else if s.size == 0
      then (if s.writer_count == 0
          then (returns would_block_forever, s)
          else (sleeps, record s { read_waiters = s.read_waiters ++ thread ∷ [] }))
      else (unblocked, s)
]

unfoldable pub block_until_writable : Pipe → ℕ → State → Blocking × State
block_until_writable p thread s = elim p.side [
  | reader ↦ (returns access_denied, s)
  | writer ↦
      if p.is_closed
      then (returns stream_closed, s)
      else if s.capacity == s.size
      then (if s.reader_count == 0
          then (returns would_block_forever, s)
          else (sleeps, record s { write_waiters = s.write_waiters ++ thread ∷ [] }))
      else (unblocked, s)
]

-- `if (blocker.is_on_a_list()) blocker.pop_off()`.
unfoldable pub pop_off : ℕ → List ℕ → List ℕ
pop_off thread [] = []
pop_off thread (t ∷ ts) = if t == thread then ts else t ∷ pop_off thread ts

-- The second critical section, after the thread has slept.
unfoldable pub leave_readable : ℕ → State → State
unfolding pop_off
leave_readable thread s = record s { read_waiters = pop_off thread s.read_waiters }

unfoldable pub leave_writable : ℕ → State → State
unfolding pop_off
leave_writable thread s = record s { write_waiters = pop_off thread s.write_waiters }
