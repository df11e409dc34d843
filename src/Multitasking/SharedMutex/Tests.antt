-- ===== src/Multitasking/SharedMutex/Tests.antt =====
-- A run of two threads, and the theorem of the shared mutex in the state that it ends in.
use ultra_os.Common.{ℕ, ◌≤◌, ◌≡◌, ◌≢◌, refl, Bool, true, [], ◌∷◌, ok, Elem, negsuc}
use ultra_os.Multitasking.Mutex.{leave}
use ultra_os.Multitasking.SharedMutex.{
  SharedMutex, create, exclusive_lock_round, exclusive_unlock, shared_lock_round, shared_unlock,
}
use ultra_os.Multitasking.SharedMutex.Exclusion.{
  System, Steps, start, next, writer_enters, reader_waits, shared_mutex_excludes,
}

abbrev always : ℕ → Bool
always thread = true

-- Thread 1 takes the mutex to write, and thread 2 waits to read.
abbrev written : SharedMutex
written = record {
  shared_refcount = negsuc 0;
  shared_waiters = [];
  exclusive_waiters = [];
  woken = [];
}

abbrev reader_sleeps : SharedMutex
reader_sleeps = record written { shared_waiters = 2 ∷ [] }

abbrev system : SharedMutex → ℕ → ℕ → System
system m writers readers = record { mutex = m; writers = writers; readers = readers }

run : Steps always (system create 0 0) (system reader_sleeps 1 0)
unfolding exclusive_lock_round shared_lock_round leave
run = next (next start (writer_enters 1 written refl)) (reader_waits 2 reader_sleeps refl)

abbrev no_thread : ℕ
no_thread = 0

abbrev one_thread : ℕ
one_thread = 1

shared_mutex_excludes_example :
    (one_thread ≤ 1)
    × (one_thread ≢ no_thread → no_thread ≡ 0)
    × (one_thread ≢ no_thread → (m : SharedMutex) × (exclusive_unlock reader_sleeps ≡ ok m))
    × (no_thread ≢ no_thread → (m : SharedMutex) × (shared_unlock reader_sleeps ≡ ok m))
    × (reader_sleeps.shared_waiters ≢ [] → one_thread ≡ 1)
    × (one_thread ≡ no_thread
        → no_thread ≡ 0
        → reader_sleeps.exclusive_waiters ≢ []
        → (t : ℕ) × Elem t reader_sleeps.woken)
shared_mutex_excludes_example = shared_mutex_excludes always (system reader_sleeps 1 0) run
