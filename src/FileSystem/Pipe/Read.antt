-- ===== src/FileSystem/Pipe/Read.antt =====
-- `Pipe::read`: it takes the oldest bytes, or leaves the pipe as it was.
use ultra_os.Common.{
  ℕ, zero, suc, ◌+◌, ◌-◌, ◌≤◌, ◌≡◌, ◌≢◌, refl, sym, ap, ◌∙◌, ◌⊎◌, inl, inr, Bool, true, false, List,
  [], ◌++◌, append_assoc, append-nil, some, ok, err, arith, suc-==-zero, length, length-append,
  take, drop, take-append_add, drop-append_add, length-tabulate, get_or,
}
use native.Mathlib.Decide.{ℕ_discrete}
use ultra_os.Memory.Range.{min_of}
use ultra_os.FileSystem.Errors.{ErrorCode}
use ultra_os.FileSystem.Pipe.{
  State, Pipe, reader, read, read_loop, Copied, finished, faulted, no_fuel, copy_out, wake_writers,
}
use ultra_os.FileSystem.Pipe.Contents.{
  contents, IsValid, advance_read, advance_read-IsValid, contents-advance_read,
}

-- What reading changes and what it leaves alone.
pub record Took (s : State) (n : ℕ) (s' : State) : Type 0 where
  pub valid : IsValid s'
  pub left : contents s' ≡ drop n (contents s)
  pub size : s'.size + n ≡ s.size
  pub capacity : s'.capacity ≡ s.capacity
  pub buffer : s'.buffer ≡ s.buffer
  pub read_waiters : s'.read_waiters ≡ s.read_waiters
  pub write_waiters : s'.write_waiters ≡ s.write_waiters
  pub woken : s'.woken ≡ s.woken
  pub readers : s'.reader_count ≡ s.reader_count
  pub writers : s'.writer_count ≡ s.writer_count

pub Took-none : (s : State) → IsValid s → Took s 0 s
Took-none s v = record {
  valid = v;
  left = refl;
  size = omega arith;
  capacity = refl;
  buffer = refl;
  read_waiters = refl;
  write_waiters = refl;
  woken = refl;
  readers = refl;
  writers = refl;
}

-- One copy, and then the rest.
pub Took-more :
    (s s' : State) (n bytes : ℕ)
    → IsValid s
    → n ≤ bytes
    → bytes ≤ s.size
    → n ≤ s.capacity - s.read_offset
    → Took (advance_read s n) (bytes - n) s'
    → Took s bytes s'
Took-more s s' n bytes v h k room t = record {
  valid = t.valid;
  left =
      t.left
      ∙ sym (
          drop-append_add n (bytes - n) (copy_out s.buffer s.read_offset n)
            (contents (advance_read s n))
            (length-tabulate n (λ i. get_or s.buffer (s.read_offset + i) 0)))
      ∙ ap (λ m. drop m (copy_out s.buffer s.read_offset n ++ contents (advance_read s n)))
          (omega arith)
      ∙ ap (drop bytes) (sym (contents-advance_read s n v (omega arith) room));
  size = omega (arith, t.size);
  capacity = t.capacity;
  buffer = t.buffer;
  read_waiters = t.read_waiters;
  write_waiters = t.write_waiters;
  woken = t.woken;
  readers = t.readers;
  writers = t.writers;
}

take_more :
    (s : State) (n bytes : ℕ)
    → IsValid s
    → n ≤ bytes
    → bytes ≤ s.size
    → n ≤ s.capacity - s.read_offset
    → copy_out s.buffer s.read_offset n ++ take (bytes - n) (contents (advance_read s n))
      ≡ take bytes (contents s)
take_more s n bytes v h k room =
    sym (
      take-append_add n (bytes - n) (copy_out s.buffer s.read_offset n)
        (contents (advance_read s n))
        (length-tabulate n (λ i. get_or s.buffer (s.read_offset + i) 0)))
    ∙ ap (λ m. take m (copy_out s.buffer s.read_offset n ++ contents (advance_read s n)))
        (omega arith)
    ∙ ap (take bytes) (sym (contents-advance_read s n v (omega arith) room))

module _ (reachable : ℕ → ℕ → Bool) (total : ℕ)
    (fits : (o n : ℕ) → o + n ≤ total → reachable o n ≡ true) where
  -- With as much fuel as bytes the loop ends, with the oldest bytes copied in order.
  read_loop_lem :
      (fuel bytes : ℕ) (out : List ℕ) (s : State)
      → IsValid s
      → bytes ≤ fuel
      → bytes ≤ s.size
      → length out + bytes ≤ total
      → (s' : State) × (read_loop reachable fuel bytes out s
          ≡ finished (out ++ take bytes (contents s)) s')
        × Took s bytes s'
  unfolding read_loop
  read_loop_lem zero zero out s v h k t =
      (s, ap (λ l. finished l s) (sym (append-nil out)), Took-none s v)
  read_loop_lem zero (suc bytes) out s v h k t = absurd (omega arith)
  read_loop_lem (suc fuel) zero out s v h k t =
      (s, ap (λ l. finished l s) (sym (append-nil out)), Took-none s v)
  read_loop_lem (suc fuel) (suc b) out s v h k t =
      let bytes = suc b in
      let n = min_of bytes (s.capacity - s.read_offset) in
      let chunk = copy_out s.buffer s.read_offset n in
      let small : n ≤ bytes = ground arith in
      let room : n ≤ s.capacity - s.read_offset = ground arith in
      let len = length-append out chunk in
      let len' = length-tabulate n (λ i. get_or s.buffer (s.read_offset + i) 0) in
      let (s', e, took) =
        read_loop_lem fuel (bytes - n) (out ++ chunk) (advance_read s n)
          (advance_read-IsValid s n v (omega arith) room) (ground (arith, v)) (omega arith)
          (omega (arith, len, len')) in
      (
        s',
        rw (suc-==-zero b, fits (length out) n (omega arith))
            (e
              ∙ ap (λ l. finished l s')
                  (append_assoc out chunk (take (bytes - n) (contents (advance_read s n)))
                    ∙ ap (λ l. out ++ l) (take_more s n bytes v small k room))),
        Took-more s s' n bytes v small k room took,
      )

-- A read on an open read end whose buffer is reachable takes the oldest `bytes` bytes, or all if there are fewer, in
-- order, and leaves the others; if the pipe was not empty every blocked writer is unblocked, and
-- nothing else changes.
pub read_takes_oldest :
    (reachable : ℕ → ℕ → Bool) (p : Pipe) (bytes : ℕ) (s : State)
    → IsValid s
    → p.side ≡ reader
    → p.is_closed ≡ false
    → ((o n : ℕ) → o + n ≤ bytes → reachable o n ≡ true)
    → let n = min_of bytes s.size in
      (t : State) × (s' : State) × (read reachable p bytes s
        ≡ some (ok (n, take n (contents s)), s'))
      × Took s n t
      × (((s.size ≡ 0) × (s' ≡ s)) ⊎ ((s.size ≢ 0) × (s' ≡ wake_writers t)))
unfolding read
read_takes_oldest reachable p bytes s v side closed fits = elim (ℕ_discrete s.size 0) [
  | yes e ↦
      let m : min_of bytes s.size ≡ 0 = ground arith in
      (s, s, rw m (ground (arith, side, closed, e)), rw m (Took-none s v), inl (e, refl))
  | no ne ↦
      let n = min_of bytes s.size in
      let (t, e, took) =
        read_loop_lem reachable n (λ o k h. fits o k (ground arith)) n n [] s v (omega arith)
          (ground arith) (omega arith) in
      (t, wake_writers t, ground (arith, e), took, inr (ne, refl))
]

-- A read that faults in the middle leaves the pipe exactly as it was.
read_loop-faulted :
    (reachable : ℕ → ℕ → Bool) (fuel bytes : ℕ) (out : List ℕ) (s s' : State)
    → read_loop reachable fuel bytes out s ≡ faulted s'
    → record s' { read_offset = s.read_offset; size = s.size } ≡ s
unfolding read_loop
read_loop-faulted reachable zero bytes out s s' e = absurd (ground arith)
read_loop-faulted reachable (suc fuel) bytes out s s' e =
    let n = min_of bytes (s.capacity - s.read_offset) in
    ground (
      arith,
      read_loop-faulted reachable fuel (bytes - n) (out ++ copy_out s.buffer s.read_offset n)
          (advance_read s n) s',
    )

-- A read that fails, on a closed end, on the wrong side or at a fault of the user's buffer, whose
-- copies may have been made in part, leaves the pipe's state exactly as it was.
pub read_error_keeps :
    (reachable : ℕ → ℕ → Bool) (p : Pipe) (bytes : ℕ) (s s' : State) (e : ErrorCode)
    → read reachable p bytes s ≡ some (err e, s')
    → s' ≡ s
unfolding read
read_error_keeps reachable p bytes s s' e h = keeps (read_loop reachable n n [] s) refl
  where
    n : ℕ
    n = min_of bytes s.size

    keeps : (c : Copied) → read_loop reachable n n [] s ≡ c → s' ≡ s
    keeps (finished out t) q = ground arith
    keeps (faulted t) q = ground (arith, read_loop-faulted reachable n n [] s t q)
    keeps no_fuel q = ground arith
