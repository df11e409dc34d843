-- ===== src/FileSystem/Pipe/Write.antt =====
-- `Pipe::write`: it appends as many bytes as fit, or leaves the bytes of the pipe as they were.
use ultra_os.Common.{
  ℕ, zero, suc, ◌+◌, ◌-◌, ◌≤◌, ◌≡◌, ◌≢◌, refl, sym, ap, subst, Bool-cases, ◌∙◌, ◌⊎◌, inl, inr, Bool,
  true, false, List, [], ◌++◌, append_assoc, append-nil, some, ok, err, arith, suc-==-zero, ◌==◌,
  length, take, drop, take-drop_add, length-take, length-drop, get_or, tabulate, tabulate-append,
  take-append_length, length-tabulate,
}
use native.Mathlib.Decide.{ℕ_discrete}
use ultra_os.Memory.Range.{min_of}
use ultra_os.FileSystem.Errors.{ErrorCode}
use ultra_os.FileSystem.Pipe.{
  Side, State, Pipe, reader, writer, write, write_loop, Copied, finished, faulted, no_fuel,
  wake_readers,
}
use ultra_os.FileSystem.Pipe.Contents.{
  contents, wrapped, IsValid, length-contents, advance_write, advance_write-IsValid,
  contents-advance_write, length-copy_in,
}

-- What writing changes and what it leaves alone.
pub record Gave (s : State) (xs : List ℕ) (n : ℕ) (s' : State) : Type 0 where
  pub valid : IsValid s'
  pub appended : contents s' ≡ contents s ++ xs
  pub size : s'.size ≡ s.size + n
  pub capacity : s'.capacity ≡ s.capacity
  pub read_offset : s'.read_offset ≡ s.read_offset
  pub read_waiters : s'.read_waiters ≡ s.read_waiters
  pub write_waiters : s'.write_waiters ≡ s.write_waiters
  pub woken : s'.woken ≡ s.woken
  pub readers : s'.reader_count ≡ s.reader_count
  pub writers : s'.writer_count ≡ s.writer_count

pub Gave-none : (s : State) → IsValid s → Gave s [] 0 s
Gave-none s v = record {
  valid = v;
  appended = sym (append-nil (contents s));
  size = omega arith;
  capacity = refl;
  read_offset = refl;
  read_waiters = refl;
  write_waiters = refl;
  woken = refl;
  readers = refl;
  writers = refl;
}

pub Gave-more :
    (s s' : State) (n bytes : ℕ) (input : List ℕ)
    → IsValid s
    → n ≤ bytes
    → bytes ≤ length input
    → bytes ≤ s.capacity - s.size
    → n ≤ s.capacity - s.write_offset
    → Gave (advance_write s (take n input) n) (take (bytes - n) (drop n input)) (bytes - n) s'
    → Gave s (take bytes input) bytes s'
Gave-more s s' n bytes input v h l k room t = record {
  valid = t.valid;
  appended =
      t.appended
      ∙ ap (λ c. c ++ take (bytes - n) (drop n input))
          (contents-advance_write s (take n input) n v (omega (arith, length-take n input))
            (omega arith) room)
      ∙ append_assoc (contents s) (take n input) (take (bytes - n) (drop n input))
      ∙ ap (λ c. contents s ++ c)
          (take-drop_add n (bytes - n) input ∙ ap (λ m. take m input) (omega arith));
  size = omega (arith, t.size);
  capacity = t.capacity;
  read_offset = t.read_offset;
  read_waiters = t.read_waiters;
  write_waiters = t.write_waiters;
  woken = t.woken;
  readers = t.readers;
  writers = t.writers;
}

module _ (reachable : ℕ → ℕ → Bool) (total : ℕ)
    (fits : (o n : ℕ) → o + n ≤ total → reachable o n ≡ true) where
  -- With as much fuel as bytes the loop ends, with the bytes appended in order.
  write_loop_lem :
      (fuel position bytes : ℕ) (input : List ℕ) (s : State)
      → IsValid s
      → bytes ≤ fuel
      → bytes ≤ length input
      → bytes ≤ s.capacity - s.size
      → position + bytes ≤ total
      → (s' : State) × (write_loop reachable fuel position bytes input s ≡ finished [] s')
        × Gave s (take bytes input) bytes s'
  unfolding write_loop
  write_loop_lem zero position zero input s v h l k t = (s, refl, Gave-none s v)
  write_loop_lem zero position (suc b) input s v h l k t = absurd (omega arith)
  write_loop_lem (suc fuel) position zero input s v h l k t = (s, refl, Gave-none s v)
  write_loop_lem (suc fuel) position (suc b) input s v h l k t =
      let bytes = suc b in
      let n = min_of bytes (s.capacity - s.write_offset) in
      let small : n ≤ bytes = ground arith in
      let room : n ≤ s.capacity - s.write_offset = ground arith in
      let (s', e, gave) =
        write_loop_lem fuel (position + n) (bytes - n) (drop n input)
          (advance_write s (take n input) n)
          (advance_write-IsValid s (take n input) n v (omega arith) room) (ground (arith, v))
          (omega (arith, length-drop n input)) (omega arith) (omega arith) in
      (
        s',
        rw (suc-==-zero b, fits position n (omega arith)) e,
        Gave-more s s' n bytes input v small l k room gave,
      )

-- A write on an open write end whose buffer is reachable appends the first bytes of its input, as
-- many as there is room for, in order, and returns their number; every blocked reader is then
-- unblocked, and nothing else changes. On a full pipe it returns 0 and does nothing.
pub write_appends :
    (reachable : ℕ → ℕ → Bool) (p : Pipe) (input : List ℕ) (s : State)
    → IsValid s
    → p.side ≡ writer
    → p.is_closed ≡ false
    → ((o n : ℕ) → o + n ≤ length input → reachable o n ≡ true)
    → let n = min_of (length input) (s.capacity - s.size) in
      (t : State) × (s' : State) × (write reachable p input s ≡ some (ok n, s'))
      × Gave s (take n input) n t
      × (((s.size ≡ s.capacity) × (s' ≡ s)) ⊎ ((s.size ≢ s.capacity) × (s' ≡ wake_readers t)))
unfolding write
write_appends reachable p input s v side closed fits = elim (ℕ_discrete s.size s.capacity) [
  | yes e ↦
      let m : min_of (length input) (s.capacity - s.size) ≡ 0 = ground arith in
      (s, s, rw m (ground (arith, side, closed, e)), rw m (Gave-none s v), inl (e, refl))
  | no ne ↦
      let n = min_of (length input) (s.capacity - s.size) in
      let (t, e, gave) =
        write_loop_lem reachable n (λ o k h. fits o k (ground arith)) n 0 n input s v (omega arith)
          (ground arith) (ground arith) (omega arith) in
      (t, wake_readers t, ground (arith, e, v), gave, inr (ne, refl))
]

-- What a loop that faults has done: the bytes that the pipe held are still in their places.
pub record Kept (s s' : State) : Type 0 where
  pub frame : record s' { write_offset = s.write_offset; size = s.size; buffer = s.buffer } ≡ s
  pub same : contents (record s { buffer = s'.buffer }) ≡ contents s
  pub region : length s'.buffer ≡ length s.buffer

Kept-more :
    (s s' : State) (xs : List ℕ) (n : ℕ)
    → IsValid s
    → length xs ≡ n
    → n ≤ s.capacity - s.size
    → n ≤ s.capacity - s.write_offset
    → Kept (advance_write s xs n) s'
    → Kept s s'
Kept-more s s' xs n v e k room t =
    let f = λ (i : ℕ). get_or s'.buffer (wrapped s.capacity (s.read_offset + i)) 0 in
    record {
      frame = ground (arith, t.frame);
      same =
          sym (
            take-append_length (tabulate s.size f) (tabulate n (λ i. f (s.size + i))) s.size
              (length-tabulate s.size f))
          ∙ ap (take s.size)
              (sym (tabulate-append s.size n f) ∙ t.same ∙ contents-advance_write s xs n v e k room)
          ∙ take-append_length (contents s) xs s.size (length-contents s);
      region = t.region ∙ length-copy_in s.buffer s.write_offset xs;
    }

Kept-none : (s : State) → Kept s s
Kept-none s = record { frame = refl; same = refl; region = refl }

write_loop-Kept :
    (reachable : ℕ → ℕ → Bool) (fuel position bytes : ℕ) (input : List ℕ) (s s' : State)
    → IsValid s
    → bytes ≤ length input
    → bytes ≤ s.capacity - s.size
    → write_loop reachable fuel position bytes input s ≡ faulted s'
    → Kept s s'
unfolding write_loop
write_loop-Kept reachable zero position bytes input s s' v l k e = absurd (ground arith)
write_loop-Kept reachable (suc fuel) position bytes input s s' v l k e =
    let n = min_of bytes (s.capacity - s.write_offset) in
    let chunk = take n input in
    elim (Bool-cases (bytes == 0)) [
      | inl done ↦ absurd (ground arith)
      | inr more ↦ elim (Bool-cases (reachable position n)) [
        | inl good ↦
            Kept-more s s' chunk n v (ground (arith, length-take n input)) (ground arith)
              (ground arith)
              (write_loop-Kept reachable fuel (position + n) (bytes - n) (drop n input)
                (advance_write s chunk n) s'
                (advance_write-IsValid s chunk n v (ground arith) (ground arith))
                (ground (arith, length-drop n input)) (ground (arith, v)) (ground arith))
        | inr bad ↦ subst (Kept s) (ground arith) (Kept-none s)
      ]
    ]

pub write_error_keeps :
    (reachable : ℕ → ℕ → Bool) (p : Pipe) (input : List ℕ) (s s' : State) (e : ErrorCode)
    → IsValid s
    → write reachable p input s ≡ some (err e, s')
    → (contents s' ≡ contents s) × (record s' { buffer = s.buffer } ≡ s) × IsValid s'
unfolding write
write_error_keeps reachable p input s s' e v h = keeps (write_loop reachable n 0 n input s) refl
  where
    n : ℕ
    n = min_of (length input) (s.capacity - s.size)

    same : s ≡ s' → (contents s' ≡ contents s) × (record s' { buffer = s.buffer } ≡ s) × IsValid s'
    same q =
        subst (λ t. (contents t ≡ contents s) × (record t { buffer = s.buffer } ≡ s) × IsValid t) q
          (refl, refl, v)

    restored :
        (t : State)
        → Kept s t
        → record t { write_offset = s.write_offset; size = s.size } ≡ s'
        → (contents s' ≡ contents s) × (record s' { buffer = s.buffer } ≡ s) × IsValid s'
    restored t k q =
        let w : s' ≡ record s { buffer = t.buffer } = ground (arith, k.frame) in
        subst (λ u. (contents u ≡ contents s) × (record u { buffer = s.buffer } ≡ s) × IsValid u)
          (sym w) (k.same, refl, ground (arith, k.region))

    faults :
        (t : State)
        → write_loop reachable n 0 n input s ≡ faulted t
        → p.is_closed ≡ false
        → (s.capacity - s.size == 0) ≡ false
        → (side : Side) → p.side ≡ side
        → (contents s' ≡ contents s) × (record s' { buffer = s.buffer } ≡ s) × IsValid s'
    faults t q x room reader r = same (ground arith)
    faults t q x room writer w =
        restored t (write_loop-Kept reachable n 0 n input s t v (ground arith) (ground arith) q)
          (ground arith)

    keeps :
        (c : Copied)
        → write_loop reachable n 0 n input s ≡ c
        → (contents s' ≡ contents s) × (record s' { buffer = s.buffer } ≡ s) × IsValid s'
    keeps (finished out t) q = same (ground arith)
    keeps (faulted t) q = elim (Bool-cases (p.is_closed)) [
      | inl x ↦ same (ground arith)
      | inr x ↦ elim (Bool-cases (s.capacity - s.size == 0)) [
        | inl full ↦ same (ground arith)
        | inr room ↦ faults t q x room p.side refl
      ]
    ]
    keeps no_fuel q = same (ground arith)
