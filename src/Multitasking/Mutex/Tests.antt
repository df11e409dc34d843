-- ===== src/Multitasking/Mutex/Tests.antt =====
-- A run of two threads, and the theorem of the mutex in the state that it ends in.
use ultra_os.Common.{
  ℕ, ◌≤◌, ◌≡◌, ◌≢◌, refl, Bool, true, List, [], ◌∷◌, none, some, ok, length, Elem,
}
use ultra_os.Multitasking.Mutex.{Mutex, acquired, create, lock_round, unlock}
use ultra_os.Multitasking.Mutex.Exclusion.{
  System, Steps, start, next, acquires, waits, releases, mutex_exclusive,
}

abbrev always : ℕ → Bool
always thread = true

-- Thread 1 locks, thread 2 waits, and thread 1 unlocks.
abbrev locked : Mutex
locked = record { owner = some 1; waiters = []; woken = [] }

abbrev waited_for : Mutex
waited_for = record { owner = some 1; waiters = 2 ∷ []; woken = [] }

abbrev handed_over : Mutex
handed_over = record { owner = none; waiters = []; woken = 2 ∷ [] }

abbrev system : Mutex → List ℕ → System
system m holders = record { mutex = m; holders = holders }

run : Steps always (system create []) (system handed_over [])
unfolding lock_round unlock
run =
    next (next (next start (acquires 1 locked refl)) (waits 2 waited_for refl))
      (releases 1 [] handed_over refl refl)

mutex_exclusive_example :
    (length {A = ℕ} [] ≤ 1)
    × ((t : ℕ) → Elem t [] → (m' : Mutex) × (unlock t handed_over ≡ ok m') × (m'.owner ≡ none))
    × (handed_over.owner ≡ none
        → handed_over.waiters ≢ []
        → (t : ℕ) × (m' : Mutex) × Elem t handed_over.woken
          × (lock_round always t handed_over ≡ ok (acquired, m')))
mutex_exclusive_example = mutex_exclusive always (system handed_over []) (λ t. refl) run
