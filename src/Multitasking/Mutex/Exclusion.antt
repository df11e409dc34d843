-- ===== src/Multitasking/Mutex/Exclusion.antt =====
-- `Mutex` over every run of its threads.
use ultra_os.Common.{
  ℕ, ◌≤◌, ◌≡◌, ◌≢◌, inl, inr, refl, sym, ap, subst, append-cons_ne, List-cases, Elem, length, Bool,
  true, List, [], ◌∷◌, ◌++◌, Option, none, some, ok, arith,
}
use ultra_os.Multitasking.Mutex.{Mutex, acquired, sleeps, create, lock_round, unlock, leave}

-- The mutex, and the threads that `lock` has returned to and that have not called `unlock`.
pub record System : Type 0 where
  pub mutex : Mutex
  pub holders : List ℕ

pub data Step (is_invulnerable : ℕ → Bool) (s : System) : System → Type 0 where
  acquires :
      (thread : ℕ) (m : Mutex)
      → lock_round is_invulnerable thread s.mutex ≡ ok (acquired, m)
      → Step is_invulnerable s (record { mutex = m; holders = thread ∷ s.holders })
  waits :
      (thread : ℕ) (m : Mutex)
      → lock_round is_invulnerable thread s.mutex ≡ ok (sleeps, m)
      → Step is_invulnerable s (record { mutex = m; holders = s.holders })
  releases :
      (thread : ℕ) (rest : List ℕ) (m : Mutex)
      → s.holders ≡ thread ∷ rest
      → unlock thread s.mutex ≡ ok m
      → Step is_invulnerable s (record { mutex = m; holders = rest })

pub data Steps (is_invulnerable : ℕ → Bool) (s : System) : System → Type 0 where
  start : Steps is_invulnerable s s
  next :
      {s' s'' : System}
      → Steps is_invulnerable s s'
      → Step is_invulnerable s' s''
      → Steps is_invulnerable s s''

abbrev owner_list : Option ℕ → List ℕ
owner_list none = []
owner_list (some t) = t ∷ []

-- The owner is the one thread inside, and a free mutex that is waited for has an unblocked thread.
pub record IsFair (s : System) : Type 0 where
  pub inside : s.holders ≡ owner_list s.mutex.owner
  pub pending : s.mutex.owner ≡ none → s.mutex.waiters ≢ [] → s.mutex.woken ≢ []

Step-IsFair :
    {is_invulnerable : ℕ → Bool} {s s' : System} → IsFair s → Step is_invulnerable s s' → IsFair s'
unfolding lock_round unlock
Step-IsFair {is_invulnerable} {s} f (acquires thread m e) = record {
  inside = grind (arith, f.inside, e);
  pending = grind (arith, e, append-cons_ne);
}
Step-IsFair {is_invulnerable} {s} f (waits thread m e) = record {
  inside = grind (arith, f.inside, e);
  pending = grind (arith, e, append-cons_ne);
}
Step-IsFair {is_invulnerable} {s} f (releases thread rest m h e) = record {
  inside = grind (arith, f.inside, h, e);
  pending = grind (arith, e, append-cons_ne);
}

Steps-IsFair :
    {is_invulnerable : ℕ → Bool} {s s' : System} → IsFair s → Steps is_invulnerable s s' → IsFair s'
Steps-IsFair f start = f
Steps-IsFair f (next rest step) = Step-IsFair (Steps-IsFair f rest) step

first_woken :
    (is_invulnerable : ℕ → Bool) (m : Mutex)
    → ((t : ℕ) → is_invulnerable t ≡ true)
    → m.owner ≡ none
    → m.woken ≢ []
    → (t : ℕ) × (m' : Mutex) × Elem t m.woken × (lock_round is_invulnerable t m ≡ ok (acquired, m'))
unfolding lock_round
first_woken is_invulnerable m all free ne = elim (List-cases m.woken) [
  | inl e ↦ absurd (ne e)
  | inr (t, ts, e) ↦ (
    t,
    record m { owner = some t; woken = leave t m.woken },
    rw e (inl refl),
    rw (all t, free) refl,
  )
]

owner_unlocks :
    (t : ℕ) (m : Mutex) → m.owner ≡ some t → (m' : Mutex) × (unlock t m ≡ ok m') × (m'.owner ≡ none)
unfolding unlock
owner_unlocks t m e = elim (List-cases m.waiters) [
  | inl w ↦ (record m { owner = none }, ground (arith, e, w), refl)
  | inr (x, xs, w) ↦
      (record { owner = none; waiters = xs; woken = m.woken ++ x ∷ [] }, ground (arith, e, w), refl)
]

at_most_one : (o : Option ℕ) → length (owner_list o) ≤ 1
at_most_one none = omega arith
at_most_one (some t) = omega arith

is_the_owner : (t : ℕ) (o : Option ℕ) → Elem t (owner_list o) → o ≡ some t
is_the_owner t none h = elim h [ ]
is_the_owner t (some x) (inl e) = ap some e
is_the_owner t (some x) (inr h) = elim h [ ]

-- In every state that the threads get to, by any rounds of `lock` and any calls of `unlock` by threads
-- that hold the mutex, at most one thread holds it and its `unlock` goes through; and
-- if the mutex is free while threads wait for it, some unblocked thread is there, whose next
-- round takes the mutex.
pub mutex_exclusive :
    (is_invulnerable : ℕ → Bool) (s : System)
    → ((t : ℕ) → is_invulnerable t ≡ true)
    → Steps is_invulnerable (record { mutex = create; holders = [] }) s
    → (length s.holders ≤ 1)
      × ((t : ℕ) → Elem t s.holders → (m' : Mutex) × (unlock t s.mutex ≡ ok m') × (m'.owner ≡ none))
      × (s.mutex.owner ≡ none
          → s.mutex.waiters ≢ []
          → (t : ℕ) × (m' : Mutex) × Elem t s.mutex.woken
            × (lock_round is_invulnerable t s.mutex ≡ ok (acquired, m')))
mutex_exclusive is_invulnerable s all steps =
    let f : IsFair s =
      Steps-IsFair (record { inside = refl; pending = λ e w. absurd (w refl) }) steps in
    (
      subst (λ l. length l ≤ 1) (sym f.inside) (at_most_one s.mutex.owner),
      λ t h. owner_unlocks t s.mutex (is_the_owner t s.mutex.owner (subst (Elem t) f.inside h)),
      λ free waited. first_woken is_invulnerable s.mutex all free (f.pending free waited),
    )
