-- ===== src/Multitasking/SharedMutex/Exclusion.antt =====
-- `SharedMutex` over every run of its threads.
use ultra_os.Common.{
  ℕ, zero, suc, ◌+◌, ◌-◌, ◌≤◌, ◌≡◌, ◌≢◌, inl, inr, refl, append-cons_ne, List-cases, Elem, Bool,
  List, [], Result-cases, ok, arith, ℤ, pos, negsuc,
}
use ultra_os.Multitasking.Mutex.{acquired, sleeps}
use ultra_os.Multitasking.SharedMutex.{
  SharedMutex, create, exclusive_lock_round, exclusive_unlock, shared_lock_round, shared_unlock,
}

-- The mutex, and how many threads are inside: between `*_lock` and `*_unlock`.
pub record System : Type 0 where
  pub mutex : SharedMutex
  pub writers : ℕ
  pub readers : ℕ

-- A thread unlocks what it has locked.
pub data Step (is_invulnerable : ℕ → Bool) (s : System) : System → Type 0 where
  writer_enters :
      (thread : ℕ) (m : SharedMutex)
      → exclusive_lock_round is_invulnerable thread s.mutex ≡ ok (acquired, m)
      → Step is_invulnerable s (record { mutex = m; writers = s.writers + 1; readers = s.readers })
  writer_waits :
      (thread : ℕ) (m : SharedMutex)
      → exclusive_lock_round is_invulnerable thread s.mutex ≡ ok (sleeps, m)
      → Step is_invulnerable s (record { mutex = m; writers = s.writers; readers = s.readers })
  writer_leaves :
      (m : SharedMutex)
      → s.writers ≢ 0
      → exclusive_unlock s.mutex ≡ ok m
      → Step is_invulnerable s (record { mutex = m; writers = s.writers - 1; readers = s.readers })
  reader_enters :
      (thread : ℕ) (m : SharedMutex)
      → shared_lock_round is_invulnerable thread s.mutex ≡ ok (acquired, m)
      → Step is_invulnerable s (record { mutex = m; writers = s.writers; readers = s.readers + 1 })
  reader_waits :
      (thread : ℕ) (m : SharedMutex)
      → shared_lock_round is_invulnerable thread s.mutex ≡ ok (sleeps, m)
      → Step is_invulnerable s (record { mutex = m; writers = s.writers; readers = s.readers })
  reader_leaves :
      (m : SharedMutex)
      → s.readers ≢ 0
      → shared_unlock s.mutex ≡ ok m
      → Step is_invulnerable s (record { mutex = m; writers = s.writers; readers = s.readers - 1 })

pub data Steps (is_invulnerable : ℕ → Bool) (s : System) : System → Type 0 where
  start : Steps is_invulnerable s s
  next :
      {s' s'' : System}
      → Steps is_invulnerable s s'
      → Step is_invulnerable s' s''
      → Steps is_invulnerable s s''

-- What the count says: -1 is one writer, n is n readers.
abbrev Counts : ℤ → ℕ → ℕ → Type 0
Counts (pos n) writers readers = (writers ≡ 0) × (readers ≡ n)
Counts (negsuc zero) writers readers = (writers ≡ 1) × (readers ≡ 0)
Counts (negsuc (suc n)) writers readers = ⊥

-- Readers wait only for a writer, and a free mutex that writers wait for has an unblocked thread.
pub record IsFair (s : System) : Type 0 where
  pub counts : Counts s.mutex.shared_refcount s.writers s.readers
  pub readers_wait : s.mutex.shared_waiters ≢ [] → s.writers ≡ 1
  pub pending : s.writers ≡ 0 → s.readers ≡ 0 → s.mutex.exclusive_waiters ≢ [] → s.mutex.woken ≢ []

Step-IsFair :
    {is_invulnerable : ℕ → Bool} {s s' : System} → IsFair s → Step is_invulnerable s s' → IsFair s'
unfolding exclusive_lock_round exclusive_unlock shared_lock_round shared_unlock
Step-IsFair {is_invulnerable} {s} f (writer_enters thread m e) = record {
  counts = grind (arith, f.counts, e);
  readers_wait = grind (arith, f.counts, f.readers_wait, e);
  pending = grind (arith, f.counts, e);
}
Step-IsFair {is_invulnerable} {s} f (writer_waits thread m e) = record {
  counts = grind (arith, f.counts, e);
  readers_wait = grind (arith, f.counts, f.readers_wait, e);
  pending = grind (arith, f.counts, f.pending, e, append-cons_ne);
}
Step-IsFair {is_invulnerable} {s} f (writer_leaves m w e) = record {
  counts = grind (arith, f.counts, e);
  readers_wait = grind (arith, f.counts, f.readers_wait, e);
  pending = grind (arith, f.counts, f.pending, e, append-cons_ne);
}
Step-IsFair {is_invulnerable} {s} f (reader_enters thread m e) = record {
  counts = grind (arith, f.counts, e);
  readers_wait = grind (arith, f.counts, f.readers_wait, e);
  pending = grind (arith, f.counts, e);
}
Step-IsFair {is_invulnerable} {s} f (reader_waits thread m e) = record {
  counts = grind (arith, f.counts, e);
  readers_wait = grind (arith, f.counts, f.readers_wait, e);
  pending = grind (arith, f.counts, f.pending, e, append-cons_ne);
}
Step-IsFair {is_invulnerable} {s} f (reader_leaves m w e) = record {
  counts = grind (arith, f.counts, e);
  readers_wait = grind (arith, f.counts, f.readers_wait, e);
  pending = grind (arith, f.counts, f.pending, e, append-cons_ne);
}

Steps-IsFair :
    {is_invulnerable : ℕ → Bool} {s s' : System} → IsFair s → Steps is_invulnerable s s' → IsFair s'
Steps-IsFair f start = f
Steps-IsFair f (next rest step) = Step-IsFair (Steps-IsFair f rest) step

writer_unlocks :
    (s : System) → IsFair s → s.writers ≢ 0 → (m : SharedMutex) × (exclusive_unlock s.mutex ≡ ok m)
unfolding exclusive_unlock
writer_unlocks s f ne = elim (Result-cases (exclusive_unlock s.mutex)) [
  | inl x ↦ x
  | inr (e, q) ↦ absurd (grind (arith, f.counts, ne, q))
]

reader_unlocks :
    (s : System) → IsFair s → s.readers ≢ 0 → (m : SharedMutex) × (shared_unlock s.mutex ≡ ok m)
unfolding shared_unlock
reader_unlocks s f ne = elim (Result-cases (shared_unlock s.mutex)) [
  | inl x ↦ x
  | inr (e, q) ↦ absurd (grind (arith, f.counts, ne, q))
]

excludes : (c : ℤ) (w r : ℕ) → Counts c w r → (w ≤ 1) × (w ≢ 0 → r ≡ 0)
excludes (pos n) w r h = ground arith
excludes (negsuc zero) w r h = ground arith
excludes (negsuc (suc n)) w r h = elim h [ ]

first_woken : (w : List ℕ) → w ≢ [] → (t : ℕ) × Elem t w
first_woken w ne = elim (List-cases w) [
  | inl e ↦ absurd (ne e)
  | inr (t, ts, e) ↦ (t, rw e (inl refl))
]

-- In every state that the threads get to, by any rounds of the two lock loops and by unlocking what
-- they have locked, at most one writer is inside, and no reader with it; an unlock by a thread
-- that is inside goes through; readers wait only while a writer is inside; and if
-- nobody is inside while writers wait, some unblocked thread is there to run.
pub shared_mutex_excludes :
    (is_invulnerable : ℕ → Bool) (s : System)
    → Steps is_invulnerable (record { mutex = create; writers = 0; readers = 0 }) s
    → (s.writers ≤ 1)
      × (s.writers ≢ 0 → s.readers ≡ 0)
      × (s.writers ≢ 0 → (m : SharedMutex) × (exclusive_unlock s.mutex ≡ ok m))
      × (s.readers ≢ 0 → (m : SharedMutex) × (shared_unlock s.mutex ≡ ok m))
      × (s.mutex.shared_waiters ≢ [] → s.writers ≡ 1)
      × (s.writers ≡ 0
          → s.readers ≡ 0
          → s.mutex.exclusive_waiters ≢ []
          → (t : ℕ) × Elem t s.mutex.woken)
shared_mutex_excludes is_invulnerable s steps =
    let f : IsFair s =
      Steps-IsFair
        (record {
          counts = (refl, refl);
          readers_wait = λ w. absurd (w refl);
          pending = λ _ _ w. absurd (w refl);
        })
        steps in
    let (one, alone) = excludes s.mutex.shared_refcount s.writers s.readers f.counts in
    (
      one,
      alone,
      writer_unlocks s f,
      reader_unlocks s f,
      f.readers_wait,
      λ w r e. first_woken s.mutex.woken (f.pending w r e),
    )
