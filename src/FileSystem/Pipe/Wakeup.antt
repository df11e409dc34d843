-- ===== src/FileSystem/Pipe/Wakeup.antt =====
-- The waiter lists of a pipe: over every sequence of operations of its clones, no thread sleeps
-- that has something to do.
use ultra_os.Common.{
  ℕ, ◌+◌, ◌-◌, ◌≤◌, ◌<◌, ◌^◌, ◌≡◌, ◌≢◌, refl, sym, subst, Bool-cases, inl, inr, Bool, false, List,
  [], some, ok, err, arith, ◌==◌, length,
}
use ultra_os.Memory.Page.{round_up}
use ultra_os.Memory.Range.{min_of}
use ultra_os.FileSystem.Errors.{ErrorOr}
use ultra_os.FileSystem.Pipe.{
  Side, State, Pipe, create, Bytes, read, read_loop, write, write_loop, clone, close,
  block_until_readable, block_until_writable, leave_readable, leave_writable, pop_off, Copied,
  finished, faulted, no_fuel, wake_writers, wake_readers,
}
use ultra_os.FileSystem.Pipe.Contents.{IsValid}
use ultra_os.FileSystem.Pipe.Read.{read_error_keeps}
use ultra_os.FileSystem.Pipe.Write.{write_error_keeps}
use ultra_os.FileSystem.Pipe.Loops.{read_loop-Took, write_loop-Gave}

-- A thread waits to read only while the pipe is empty and has a writer, and to write only while
-- the pipe is full and has a reader.
pub record IsAwake (s : State) : Type 0 where
  pub readers : s.read_waiters ≢ [] → (s.size ≡ 0) × (s.writer_count ≢ 0)
  pub writers : s.write_waiters ≢ [] → (s.size ≡ s.capacity) × (s.reader_count ≢ 0)

-- One critical section of one of the operations.
pub data Step (s : State) : State → Type 0 where
  reads :
      (reachable : ℕ → ℕ → Bool) (p : Pipe) (bytes : ℕ) (r : Bytes) {s' : State}
      → read reachable p bytes s ≡ some (r, s')
      → Step s s'
  writes :
      (reachable : ℕ → ℕ → Bool) (p : Pipe) (input : List ℕ) (r : ErrorOr ℕ) {s' : State}
      → write reachable p input s ≡ some (r, s')
      → Step s s'
  clones : (p : Pipe) (side : Side) → Step s (clone p side s).1
  closes : (p : Pipe) → Step s (close p s).2
  waits_readable : (p : Pipe) (thread : ℕ) → Step s (block_until_readable p thread s).1
  waits_writable : (p : Pipe) (thread : ℕ) → Step s (block_until_writable p thread s).1
  leaves_readable : (thread : ℕ) → Step s (leave_readable thread s)
  leaves_writable : (thread : ℕ) → Step s (leave_writable thread s)

pub data Steps (s : State) : State → Type 0 where
  start : Steps s s
  next : {s' s'' : State} → Steps s s' → Step s' s'' → Steps s s''

abbrev Good : State → Type 0
Good s = IsValid s × IsAwake s

read-Good :
    (reachable : ℕ → ℕ → Bool) (p : Pipe) (bytes : ℕ) (r : Bytes) (s s' : State)
    → Good s
    → read reachable p bytes s ≡ some (r, s')
    → Good s'
unfolding read
read-Good reachable p bytes (err e) s s' g h =
    subst Good (sym (read_error_keeps reachable p bytes s s' e h)) g
read-Good reachable p bytes (ok r) s s' (v, a) h = go (read_loop reachable n n [] s) refl
  where
    n : ℕ
    n = min_of bytes s.size

    empty : s ≡ s' → Good s'
    empty q = subst Good q (v, a)

    ends :
        (out : List ℕ) (t : State)
        → (s.size == 0) ≡ false
        → read_loop reachable n n [] s ≡ finished out t
        → wake_writers t ≡ s'
        → Good s'
    ends out t ne q e =
        let took = read_loop-Took reachable n n [] out s t v (ground arith) q in
        subst Good e (
          ground (arith, took.valid),
          record {
            readers = λ w. absurd (ground (arith, a.readers, took.read_waiters));
            writers = λ w. absurd (w refl);
          },
        )

    go : (c : Copied) → read_loop reachable n n [] s ≡ c → Good s'
    go (finished out t) q = elim (Bool-cases (s.size == 0)) [
      | inl x ↦ empty (ground arith)
      | inr x ↦ ends out t x q (ground arith)
    ]
    go (faulted t) q = empty (ground arith)
    go no_fuel q = empty (ground arith)

write-Good :
    (reachable : ℕ → ℕ → Bool) (p : Pipe) (input : List ℕ) (r : ErrorOr ℕ) (s s' : State)
    → Good s
    → write reachable p input s ≡ some (r, s')
    → Good s'
unfolding write
write-Good reachable p input (err e) s s' (v, a) h =
    let (same, frame, valid) = write_error_keeps reachable p input s s' e v h in
    (
      valid,
      record {
        readers = λ w. ground (arith, a.readers, frame);
        writers = λ w. ground (arith, a.writers, frame);
      },
    )
write-Good reachable p input (ok r) s s' (v, a) h = go (write_loop reachable n 0 n input s) refl
  where
    n : ℕ
    n = min_of (length input) (s.capacity - s.size)

    full : s ≡ s' → Good s'
    full q = subst Good q (v, a)

    ends :
        (out : List ℕ) (t : State)
        → (s.capacity - s.size == 0) ≡ false
        → write_loop reachable n 0 n input s ≡ finished out t
        → wake_readers t ≡ s'
        → Good s'
    ends out t ne q e =
        let gave =
          write_loop-Gave reachable n 0 n input out s t v (ground arith) (ground arith) q in
        subst Good e (
          ground (arith, gave.valid),
          record {
            readers = λ w. absurd (w refl);
            writers = λ w. absurd (ground (arith, a.writers, gave.write_waiters));
          },
        )

    go : (c : Copied) → write_loop reachable n 0 n input s ≡ c → Good s'
    go (finished out t) q = elim (Bool-cases (s.capacity - s.size == 0)) [
      | inl x ↦ full (ground arith)
      | inr x ↦ ends out t x q (ground arith)
    ]
    go (faulted t) q = full (ground arith)
    go no_fuel q = full (ground arith)

clone-Good : (p : Pipe) (side : Side) (s : State) → Good s → Good (clone p side s).1
unfolding clone
clone-Good p side s g = (ground (arith, g.0), ground (arith, g.1))

close-Good : (p : Pipe) (s : State) → Good s → Good (close p s).2
unfolding close
close-Good p s g = (ground (arith, g.0), ground (arith, g.1))

waits_readable-Good :
    (p : Pipe) (thread : ℕ) (s : State) → Good s → Good (block_until_readable p thread s).1
unfolding block_until_readable
waits_readable-Good p thread s g = (ground (arith, g.0), ground (arith, g.1))

waits_writable-Good :
    (p : Pipe) (thread : ℕ) (s : State) → Good s → Good (block_until_writable p thread s).1
unfolding block_until_writable
waits_writable-Good p thread s g = (ground (arith, g.0), ground (arith, g.1))

leaves_readable-Good : (thread : ℕ) (s : State) → Good s → Good (leave_readable thread s)
unfolding leave_readable pop_off
leaves_readable-Good thread s g = (ground (arith, g.0), ground (arith, g.1))

leaves_writable-Good : (thread : ℕ) (s : State) → Good s → Good (leave_writable thread s)
unfolding leave_writable pop_off
leaves_writable-Good thread s g = (ground (arith, g.0), ground (arith, g.1))

Step-Good : {s s' : State} → Good s → Step s s' → Good s'
Step-Good {s} {s'} g (reads reachable p bytes r e) = read-Good reachable p bytes r s s' g e
Step-Good {s} {s'} g (writes reachable p input r e) = write-Good reachable p input r s s' g e
Step-Good {s} g (clones p side) = clone-Good p side s g
Step-Good {s} g (closes p) = close-Good p s g
Step-Good {s} g (waits_readable p thread) = waits_readable-Good p thread s g
Step-Good {s} g (waits_writable p thread) = waits_writable-Good p thread s g
Step-Good {s} g (leaves_readable thread) = leaves_readable-Good thread s g
Step-Good {s} g (leaves_writable thread) = leaves_writable-Good thread s g

Steps-Good : {s s' : State} → Good s → Steps s s' → Good s'
Steps-Good g start = g
Steps-Good g (next rest step) = Step-Good (Steps-Good g rest) step

positive : (capacity : ℕ) → capacity + 4096 ≤ 2 ^ 64 → 0 < round_up capacity
unfolding round_up
positive capacity k = ground arith

created :
    (side : Side) (capacity : ℕ) (buffer : List ℕ) (p : Pipe) (s : State)
    → create side capacity buffer ≡ ok (p, s)
    → length buffer ≡ round_up capacity
    → 0 < round_up capacity
    → Good s
unfolding create
created side capacity buffer p s e l h = (ground arith, ground arith)

-- In every state that a new pipe of `capacity` bytes gets to, by any reads, writes, clones, closes,
-- waits and wake-ups of its ends in any order, its offsets and its size are consistent, a thread
-- waits to read only while the pipe is empty and its write ends are not 0, and a thread waits to write only
-- while the pipe is full and its read ends are not 0.
pub no_lost_wakeup :
    (side : Side) (capacity : ℕ) (buffer : List ℕ) (p : Pipe) (s₀ s : State)
    → capacity + 4096 ≤ 2 ^ 64
    → create side capacity buffer ≡ ok (p, s₀)
    → length buffer ≡ round_up capacity
    → Steps s₀ s
    → IsValid s × IsAwake s
no_lost_wakeup side capacity buffer p s₀ s k e l steps =
    Steps-Good (created side capacity buffer p s₀ e l (positive capacity k)) steps
