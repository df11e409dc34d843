-- ===== src/Multitasking/SharedMutex.antt =====
-- Kernel/Multitasking/Mutex.{h,cpp}: `SharedMutex`, the reader-writer lock, modelled as `Mutex` is.
pub mod Exclusion
mod Tests
use ultra_os.Common.{
  ℕ, Bool, true, false, if◌then◌else◌, not, ◌&&◌, List, [], ◌∷◌, ◌++◌, Result, Fault, assertion,
  guard, ok, err, ◌>>=◌, ◌>>◌, ℤ, pos, negsuc, increment, decrement, is_zero, is_nonnegative,
  is_positive, is_minus_one,
}
use ultra_os.Multitasking.Mutex.{Attempt, acquired, sleeps, leave}

pub record SharedMutex : Type 0 where
  pub shared_refcount : ℤ
  pub shared_waiters : List ℕ
  pub exclusive_waiters : List ℕ
  pub woken : List ℕ

abbrev pub exclusive_mode : ℤ
exclusive_mode = negsuc 0

abbrev pub free_mode : ℤ
free_mode = pos 0

abbrev pub create : SharedMutex
create = record {
  shared_refcount = free_mode;
  shared_waiters = [];
  exclusive_waiters = [];
  woken = [];
}

-- One round of the loop of `exclusive_lock`.
unfoldable pub exclusive_lock_round :
    (ℕ → Bool) → ℕ → SharedMutex → Result Fault (Attempt × SharedMutex)
exclusive_lock_round is_invulnerable thread m = do
  guard (is_invulnerable thread) assertion
  (if is_zero m.shared_refcount
      then ok
          (acquired, record m { shared_refcount = exclusive_mode; woken = leave thread m.woken })
      else ok (
        sleeps,
        record m {
          exclusive_waiters = m.exclusive_waiters ++ thread ∷ [];
          woken = leave thread m.woken;
        },
      ))

-- `pop_front().unblock()` if there is an exclusive waiter.
abbrev pub wake_exclusive : SharedMutex → SharedMutex
wake_exclusive m = elim m.exclusive_waiters [
  | [] ↦ m
  | t ∷ ts ↦ record m { exclusive_waiters = ts; woken = m.woken ++ t ∷ [] }
]

unfoldable pub exclusive_unlock : SharedMutex → Result Fault SharedMutex
exclusive_unlock m = do
  guard (is_minus_one m.shared_refcount) assertion
  elim m.shared_waiters [
    | [] ↦ ok (wake_exclusive (record m { shared_refcount = free_mode }))
    | t ∷ ts ↦
        ok
          (record m { shared_refcount = free_mode; shared_waiters = []; woken = m.woken ++ t ∷ ts })
  ]

-- One round of the loop of `shared_lock`.
unfoldable pub shared_lock_round :
    (ℕ → Bool) → ℕ → SharedMutex → Result Fault (Attempt × SharedMutex)
shared_lock_round is_invulnerable thread m = do
  guard (is_invulnerable thread) assertion
  (if is_nonnegative m.shared_refcount
      then ok (
        acquired,
        record m { shared_refcount = increment m.shared_refcount; woken = leave thread m.woken },
      )
      else ok (
        sleeps,
        record m { shared_waiters = m.shared_waiters ++ thread ∷ []; woken = leave thread m.woken },
      ))

unfoldable pub shared_unlock : SharedMutex → Result Fault SharedMutex
shared_unlock m = do
  guard (is_positive m.shared_refcount) assertion
  let m' : SharedMutex = record m { shared_refcount = decrement m.shared_refcount }
  ok (if is_zero m'.shared_refcount then wake_exclusive m' else m')
