-- ===== src/Memory/Heap/Runs.antt =====
-- Runs of chunks: what the search finds, and what marking and clearing them does.
use ultra_os.Common.{
  ℕ, zero, suc, ◌+◌, ◌*◌, ◌/◌, ◌≤◌, ◌<◌, ◌≡◌, ◌≢◌, refl, sym, ap, subst, ◌∙◌, ◌⊎◌, inl, inr, true,
  false, ◌==◌, if◌then◌else◌, List, [], ◌∷◌, some, get_or, set, length, length-set, get_or-set_self,
  get_or-set_ne, Bool-cases, arith,
}
use native.Mathlib.Decide.{dec_lt}
use ultra_os.Memory.Heap.{HeapBlock, id_at, find_chunks, mark, clear_run, skip_ahead}

-- The chunks from `k` on, `n` of them, are free.
abbrev pub IsFreeRun : List ℕ → ℕ → ℕ → Type 0
IsFreeRun ids k n = (j : ℕ) → j < n → get_or ids (k + j) 0 ≡ 0

set_same : (ids : List ℕ) (k : ℕ) → get_or ids k 0 ≡ 0 → set ids k 0 ≡ ids
set_same [] k e = refl
set_same (x ∷ ids) zero e = ap (λ y. y ∷ ids) (sym e)
set_same (x ∷ ids) (suc k) e = ap (◌∷◌ x) (set_same ids k e)

set_twice : (ids : List ℕ) (k a b : ℕ) → set (set ids k a) k b ≡ set ids k b
set_twice [] k a b = refl
set_twice (x ∷ ids) zero a b = refl
set_twice (x ∷ ids) (suc k) a b = ap (◌∷◌ x) (set_twice ids k a b)

set_swap : (ids : List ℕ) (k l a b : ℕ) → k ≢ l → set (set ids k a) l b ≡ set (set ids l b) k a
set_swap [] k l a b ne = refl
set_swap (x ∷ ids) zero zero a b ne = absurd (ne refl)
set_swap (x ∷ ids) zero (suc l) a b ne = refl
set_swap (x ∷ ids) (suc k) zero a b ne = refl
set_swap (x ∷ ids) (suc k) (suc l) a b ne = ap (◌∷◌ x) (set_swap ids k l a b (λ e. ne (ap suc e)))

set-mark :
    (n k l id a : ℕ) (ids : List ℕ) → l < k → set (mark n k id ids) l a ≡ mark n k id (set ids l a)
unfolding mark
set-mark zero k l id a ids h = refl
set-mark (suc n) k l id a ids h =
    set-mark n (k + 1) l id a (set ids k id) (omega arith)
    ∙ ap (mark n (k + 1) id) (set_swap ids k l id a (omega arith))

pub get_or-mark_out :
    (n k id : ℕ) (ids : List ℕ) (l : ℕ)
    → (l < k) ⊎ (k + n ≤ l)
    → get_or (mark n k id ids) l 0 ≡ get_or ids l 0
unfolding mark
get_or-mark_out zero k id ids l h = refl
get_or-mark_out (suc n) k id ids l h =
    get_or-mark_out n (k + 1) id (set ids k id) l (omega arith)
    ∙ get_or-set_ne ids k l id 0 (omega arith)

pub get_or-mark_in :
    (n k id : ℕ) (ids : List ℕ) (j : ℕ)
    → k + n ≤ length ids
    → j < n
    → get_or (mark n k id ids) (k + j) 0 ≡ id
unfolding mark
get_or-mark_in zero k id ids j h l = absurd (omega arith)
get_or-mark_in (suc n) k id ids zero h l =
    let e : k + zero ≡ k = omega arith in
    rw e (
      get_or-mark_out n (k + 1) id (set ids k id) k (inl (omega arith))
      ∙ get_or-set_self ids k id 0 (omega arith))
get_or-mark_in (suc n) k id ids (suc j) h l =
    let e : k + suc j ≡ (k + 1) + j = omega arith in
    rw e (
      get_or-mark_in n (k + 1) id (set ids k id) j (omega (arith, length-set ids k id))
        (omega arith))

-- Clearing a marked run that nothing of its identifier follows undoes the marking.
pub clear_run-mark :
    (fuel n k id : ℕ) (ids : List ℕ)
    → id ≢ 0
    → n < fuel
    → k + n ≤ length ids
    → IsFreeRun ids k n
    → get_or ids (k + n) 0 ≢ id
    → clear_run fuel k id (mark n k id ids) ≡ (n, ids)
unfolding clear_run mark
clear_run-mark zero n k id ids p f h free end = absurd (omega arith)
clear_run-mark (suc fuel) zero k id ids p f h free end =
    let e : k + zero ≡ k = omega arith in
    let stop : (get_or ids k 0 == id) ≡ false = ground (arith, end, ap (λ x. get_or ids x 0) e) in
    rw stop refl
clear_run-mark (suc fuel) (suc n) k id ids p f h free end =
    let e : k + suc n ≡ (k + 1) + n = omega arith in
    let first : get_or ids k 0 ≡ 0 =
      ap (λ x. get_or ids x 0) (omega arith) ∙ free 0 (omega arith) in
    let hit : (get_or (mark n (k + 1) id (set ids k id)) k 0 == id) ≡ true = ground (
      arith,
      get_or-mark_out n (k + 1) id (set ids k id) k (inl (omega arith)),
      get_or-set_self ids k id 0 (omega arith),
    ) in
    let unmarked : set (mark n (k + 1) id (set ids k id)) k 0 ≡ mark n (k + 1) id ids =
      set-mark n (k + 1) k id 0 (set ids k id) (omega arith)
      ∙ ap (mark n (k + 1) id) (set_twice ids k id 0 ∙ set_same ids k first) in
    let rest =
      clear_run-mark fuel n (k + 1) id ids p (omega arith) (omega arith)
        (λ j l. ap (λ x. get_or ids x 0) (omega arith) ∙ free (suc j) (omega arith))
        (λ q. end (ap (λ x. get_or ids x 0) e ∙ q)) in
    rw (hit, unmarked, rest) (ap (λ m. (m, ids)) (omega arith))

-- The run that the search has begun: the chunks from the one at `at_bit` up to the one at `i` are free.
abbrev Begun : List ℕ → ℕ → ℕ → ℕ → Type 0
Begun ids i count at_bit = count ≢ 0 → (at_bit + count * 2 ≡ i) × IsFreeRun ids (at_bit / 2) count

-- One more free chunk.
grows :
    (ids : List ℕ) (i count at_bit : ℕ)
    → Begun ids i count at_bit
    → id_at ids i ≡ 0
    → let at_bit' = if count + 1 == 1 then i else at_bit in
      (at_bit' + (count + 1) * 2 ≡ i + 2) × IsFreeRun ids (at_bit' / 2) (count + 1)
grows ids i zero at_bit begun e = (ground arith, λ j l. ap (λ x. get_or ids x 0) (ground arith) ∙ e)
grows ids i (suc n) at_bit begun e =
    let (sum, run) = begun (λ q. omega (arith, q)) in
    let same : (if suc n + 1 == 1 then i else at_bit) ≡ at_bit = ground arith in
    rw same (
      omega (arith, sum),
      λ j l. elim (dec_lt j (suc n)) [
        | yes p ↦ run j p
        | no p ↦ ap (λ x. get_or ids x 0) (omega (arith, sum)) ∙ e
      ],
    )

pub find_chunks-IsFreeRun :
    (fuel : ℕ) (heap : HeapBlock) (needed bits offset i count at_bit found : ℕ)
    → count < needed
    → Begun heap.ids i count at_bit
    → find_chunks fuel heap needed bits offset i count at_bit ≡ some found
    → (found / 2 + needed ≤ heap.chunk_count) × IsFreeRun heap.ids (found / 2) needed
unfolding find_chunks
find_chunks-IsFreeRun zero heap needed bits offset i count at_bit found l begun e =
    absurd (ground arith)
find_chunks-IsFreeRun (suc fuel) heap needed bits offset i count at_bit found l begun e =
    elim (Bool-cases (id_at heap.ids i == 0)) [
      | inl free ↦
          let at_bit' = if count + 1 == 1 then i else at_bit in
          let (sum, run) = grows heap.ids i count at_bit begun (ground (arith, free)) in
          elim (Bool-cases (count + 1 == needed)) [
            | inl enough ↦
                let q : count + 1 ≡ needed = ground arith in
                let here : at_bit' ≡ found = ground (arith, enough, free) in
                let inside : i < heap.chunk_count * 2 = ground (arith, enough, free) in
                subst (λ n. (found / 2 + n ≤ heap.chunk_count) × IsFreeRun heap.ids (found / 2) n) q
                  (subst
                    (λ f.
                      (f / 2 + (count + 1) ≤ heap.chunk_count)
                      × IsFreeRun heap.ids (f / 2) (count + 1))
                    here (omega (arith, sum, inside), run))
            | inr more ↦
                find_chunks-IsFreeRun fuel heap needed bits offset (i + 2) (count + 1) at_bit' found
                  (ground (arith, more)) (λ _. (sum, run)) (ground (arith, more, free))
          ]
      | inr busy ↦
          find_chunks-IsFreeRun fuel heap needed bits offset (skip_ahead bits offset i) 0 0 found
            (omega arith) (λ z. absurd (z refl)) (ground (arith, busy))
    ]
