-- ===== src/Multitasking/Mutex.antt =====
-- Kernel/Multitasking/Mutex.{h,cpp}: `Mutex`. A thread is its number. A critical section of
-- `m_state_access_lock` is one step; `unblock()` puts a thread into `woken`, where it stays until it
-- runs again and makes its next round of the loop of `lock`.
pub mod Exclusion
mod Tests
use ultra_os.Common.{
  ℕ, Bool, true, false, ◌==◌, if◌then◌else◌, not, List, [], ◌∷◌, ◌++◌, Option, none, some, Result,
  Fault, assertion, guard, ok, err, ◌>>=◌, ◌>>◌,
}

pub record Mutex : Type 0 where
  pub owner : Option ℕ
  pub waiters : List ℕ
  pub woken : List ℕ

abbrev pub create : Mutex
create = record { owner = none; waiters = []; woken = [] }

abbrev pub is_owner : Mutex → ℕ → Bool
is_owner m thread = elim m.owner [ none ↦ false | some t ↦ t == thread ]

-- A thread that runs has left the list of the unblocked threads.
unfoldable pub leave : ℕ → List ℕ → List ℕ
leave thread [] = []
leave thread (t ∷ ts) = if t == thread then ts else t ∷ leave thread ts

pub data Attempt : Type 0 where
  acquired sleeps : Attempt

-- One round of the loop of `lock`.
unfoldable pub lock_round : (ℕ → Bool) → ℕ → Mutex → Result Fault (Attempt × Mutex)
unfolding leave
lock_round is_invulnerable thread m = do
  guard (is_invulnerable thread) assertion
  guard (not (is_owner m thread)) assertion
  elim m.owner [
    | none ↦ ok (acquired, record m { owner = some thread; woken = leave thread m.woken })
    | some t ↦
        ok (sleeps, record m { waiters = m.waiters ++ thread ∷ []; woken = leave thread m.woken })
  ]

unfoldable pub unlock : ℕ → Mutex → Result Fault Mutex
unlock thread m = do
  guard (is_owner m thread) assertion
  elim m.waiters [
    | [] ↦ ok (record m { owner = none })
    | t ∷ ts ↦ ok (record m { owner = none; waiters = ts; woken = m.woken ++ t ∷ [] })
  ]
