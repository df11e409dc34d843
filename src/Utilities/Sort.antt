-- ===== src/Utilities/Sort.antt =====
-- `insertion_sort` of Kernel/Common/Utilities.h.
use ultra_os.Common.{
  ℕ, zero, suc, ◌+◌, ◌<◌, ◌≡◌, ◌≢◌, refl, sym, ap, subst, ◌∙◌, ◌⊎◌, inl, inr, Bool, true, false,
  ltb, List, [], ◌∷◌, Option, some, Bool-cases, get_elem?, set, length, length-set,
  get_elem?-set_self, get_elem?-set_ne, Perm, arith,
}
use native.Mathlib.Decide.{ℕ_discrete}
use mathlib.Core.List.Perm
use ultra_os.Utilities.{swap, sink, sort_from, insertion_sort}
use ultra_os.Utilities.Search.{get_elem?-lt, get_elem?-some}

-- A strict order whose negation is transitive, as of a comparison of keys.
pub record IsOrder {ℓ} {A : Type ℓ} (comparator : A → A → Bool) : Type ℓ where
  pub one_way : (v w : A) → comparator v w ≡ true → comparator w v ≡ false
  pub chain : (v w x : A) → comparator w v ≡ false → comparator x w ≡ false → comparator x v ≡ false

module _ {ℓ} {A : Type ℓ} where
  -- No element of the first `n` is before one that stands ahead of it.
  abbrev pub SortedTo : (A → A → Bool) → ℕ → List A → Type ℓ
  SortedTo comparator n xs =
      (i j : ℕ) (v w : A)
      → i < j
      → j < n
      → get_elem? xs i ≡ some v
      → get_elem? xs j ≡ some w
      → comparator w v ≡ false

  -- All but the element at `k` are in order, and no element behind it is before it.
  record Sinking (comparator : A → A → Bool) (k n : ℕ) (xs : List A) : Type ℓ where
    others :
        (i j : ℕ) (v w : A)
        → i < j
        → j < n
        → i ≢ k
        → j ≢ k
        → get_elem? xs i ≡ some v
        → get_elem? xs j ≡ some w
        → comparator w v ≡ false
    above :
        (j : ℕ) (v w : A)
        → k < j
        → j < n
        → get_elem? xs k ≡ some v
        → get_elem? xs j ≡ some w
        → comparator w v ≡ false

  some_same : (o : Option A) (v w : A) → o ≡ some v → o ≡ some w → v ≡ w
  some_same o v w p q = ground (arith, p, q)

  get_elem?-swap :
      (xs : List A) (k m : ℕ) (v w u : A)
      → suc k < length xs
      → get_elem? (swap (suc k) v k w xs) m ≡ some u
      → ((m ≡ k) × (u ≡ v))
        ⊎ (((m ≡ suc k) × (u ≡ w)) ⊎ ((m ≢ k) × (m ≢ suc k) × (get_elem? xs m ≡ some u)))
  get_elem?-swap xs k m v w u h e = elim (ℕ_discrete m k) [
    | yes p ↦ inl (
      p,
      some_same (get_elem? (swap (suc k) v k w xs) m) u v e (
          ap (get_elem? (swap (suc k) v k w xs)) p
          ∙ get_elem?-set_self (set xs (suc k) w) k v (omega (arith, h, length-set xs (suc k) w))),
    )
    | no p ↦
        (let behind : get_elem? (swap (suc k) v k w xs) m ≡ get_elem? (set xs (suc k) w) m =
            get_elem?-set_ne (set xs (suc k) w) v (λ q. p (sym q)) in
          elim (ℕ_discrete m (suc k)) [
            | yes q ↦ inr (
                inl (
                  q,
                  some_same (get_elem? (set xs (suc k) w) m) u w (sym behind ∙ e)
                      (ap (get_elem? (set xs (suc k) w)) q ∙ get_elem?-set_self xs (suc k) w h),
                ))
            | no q ↦ inr (inr (p, q, sym (get_elem?-set_ne xs w (λ r. q (sym r))) ∙ sym behind ∙ e))
          ])
  ]

  swap-Perm :
      (xs : List A) (k : ℕ) (v w : A)
      → get_elem? xs (suc k) ≡ some v
      → get_elem? xs k ≡ some w
      → Perm (swap (suc k) v k w xs) xs
  swap-Perm [] k v w p q = absurd (ground (arith, p))
  swap-Perm (x ∷ []) k v w p q = absurd (ground (arith, p))
  swap-Perm (x ∷ y ∷ xs) zero v w p q =
      let ev : y ≡ v = ground (arith, p) in
      let ew : x ≡ w = ground (arith, q) in
      subst (λ a. Perm (a ∷ w ∷ xs) (x ∷ y ∷ xs)) ev
        (subst (λ b. Perm (y ∷ b ∷ xs) (x ∷ y ∷ xs)) ew (Perm.swap x y xs))
  swap-Perm (x ∷ y ∷ xs) (suc k) v w p q = Perm.cons x (swap-Perm (y ∷ xs) k v w p q)

  swapped :
      (comparator : A → A → Bool) (xs : List A) (k n : ℕ) (v w : A)
      → IsOrder comparator
      → get_elem? xs (suc k) ≡ some v
      → get_elem? xs k ≡ some w
      → comparator v w ≡ true
      → Sinking comparator (suc k) n xs
      → Sinking comparator k n (swap (suc k) v k w xs)
  swapped comparator xs k n v w o p q less s =
      let inside = get_elem?-lt xs (suc k) v p in
      record {
        others = λ i j a b i_lt j_lt i_ne j_ne ea eb. elim (get_elem?-swap xs k i v w a inside ea) [
          | inl (e, _) ↦ absurd (i_ne e)
          | inr (inl (ei, ew)) ↦ elim (get_elem?-swap xs k j v w b inside eb) [
            | inl (e, _) ↦ absurd (j_ne e)
            | inr (inl (ej, _)) ↦ absurd (omega (arith, ei, ej, i_lt))
            | inr (inr (_, j_ne', eb')) ↦
                subst (λ c. comparator b c ≡ false) (sym ew)
                  (s.others k j w b (omega (arith, ei, i_lt)) j_lt (omega arith) j_ne' q eb')
          ]
          | inr (inr (_, i_ne', ea')) ↦ elim (get_elem?-swap xs k j v w b inside eb) [
            | inl (e, _) ↦ absurd (j_ne e)
            | inr (inl (ej, ew)) ↦
                subst (λ c. comparator c a ≡ false) (sym ew)
                  (s.others i k a w (omega (arith, ej, i_lt, i_ne)) (omega (arith, ej, j_lt)) i_ne'
                    (omega arith) ea' q)
            | inr (inr (_, j_ne', eb')) ↦ s.others i j a b i_lt j_lt i_ne' j_ne' ea' eb'
          ]
        ];
        above = λ j a b k_lt j_lt ea eb. elim (get_elem?-swap xs k k v w a inside ea) [
          | inr (inl (e, _)) ↦ absurd (omega (arith, e))
          | inr (inr (ne, _, _)) ↦ absurd (ne refl)
          | inl (_, ev) ↦ elim (get_elem?-swap xs k j v w b inside eb) [
            | inl (e, _) ↦ absurd (omega (arith, e, k_lt))
            | inr (inl (_, ew)) ↦
                subst (λ c. comparator b c ≡ false) (sym ev)
                  (subst (λ c. comparator c v ≡ false) (sym ew) (o.one_way v w less))
            | inr (inr (_, ne, eb')) ↦
                subst (λ c. comparator b c ≡ false) (sym ev)
                  (s.above j v b (omega (arith, k_lt, ne)) j_lt p eb')
          ]
        ];
      }

  Sinking-SortedTo :
      (comparator : A → A → Bool) (xs : List A) (k n : ℕ) (v w : A)
      → IsOrder comparator
      → get_elem? xs (suc k) ≡ some v
      → get_elem? xs k ≡ some w
      → comparator v w ≡ false
      → Sinking comparator (suc k) n xs
      → SortedTo comparator n xs
  Sinking-SortedTo comparator xs k n v w o p q stays s i j a b i_lt j_lt ea eb =
      elim (ℕ_discrete i (suc k)) [
        | yes e ↦ s.above j a b (omega arith) j_lt (ap (get_elem? xs) (sym e) ∙ ea) eb
        | no i_ne ↦ elim (ℕ_discrete j (suc k)) [
          | no j_ne ↦ s.others i j a b i_lt j_lt i_ne j_ne ea eb
          | yes e ↦
              (let same : v ≡ b = some_same (get_elem? xs j) v b (ap (get_elem? xs) e ∙ p) eb in
                let below : comparator v a ≡ false = elim (ℕ_discrete i k) [
                  | yes f ↦
                      subst (λ c. comparator v c ≡ false)
                        (some_same (get_elem? xs i) w a (ap (get_elem? xs) f ∙ q) ea) stays
                  | no f ↦
                      o.chain a w v
                        (s.others i k a w (omega arith) (omega arith) i_ne (omega arith) ea q) stays
                ] in
                subst (λ c. comparator c a ≡ false) same below)
        ]
      ]

  sink_lem :
      (comparator : A → A → Bool) (k n : ℕ) (xs : List A)
      → IsOrder comparator
      → k < length xs
      → Sinking comparator k n xs
      → SortedTo comparator n (sink comparator k xs)
        × Perm (sink comparator k xs) xs
        × (length (sink comparator k xs) ≡ length xs)
  unfolding sink
  sink_lem comparator zero n xs o h s = (
    (λ i j a b i_lt j_lt ea eb. elim (ℕ_discrete i 0) [
      | yes e ↦ s.above j a b (omega arith) j_lt (ap (get_elem? xs) (sym e) ∙ ea) eb
      | no e ↦ s.others i j a b i_lt j_lt e (omega arith) ea eb
    ]),
    Perm.rfl,
    refl,
  )
  sink_lem comparator (suc k) n xs o h s =
      let (v, p) = get_elem?-some xs (suc k) h in
      let (w, q) = get_elem?-some xs k (omega arith) in
      elim (Bool-cases (comparator v w)) [
        | inl less ↦
            (let lengths : length (swap (suc k) v k w xs) ≡ length xs =
                length-set (set xs (suc k) w) k v ∙ length-set xs (suc k) w in
              let (sorted, perm, same) =
                sink_lem comparator k n (swap (suc k) v k w xs) o (omega (arith, h, lengths))
                  (swapped comparator xs k n v w o p q less s) in
              rw (sink, p, q, less)
                (sorted, Perm.trans perm (swap-Perm xs k v w p q), same ∙ lengths))
        | inr stays ↦
            rw (sink, p, q, stays)
              (Sinking-SortedTo comparator xs k n v w o p q stays s, Perm.rfl, refl)
      ]

  sort_from_lem :
      (comparator : A → A → Bool) (m i : ℕ) (xs : List A)
      → IsOrder comparator
      → i + m ≡ length xs
      → SortedTo comparator i xs
      → SortedTo comparator (length xs) (sort_from comparator m i xs)
        × Perm (sort_from comparator m i xs) xs
        × (length (sort_from comparator m i xs) ≡ length xs)
  unfolding sort_from
  sort_from_lem comparator zero i xs o h s =
      ((λ a b v w l r. s a b v w l (omega (arith, r, h))), Perm.rfl, refl)
  sort_from_lem comparator (suc m) i xs o h s =
      let (sorted, perm, same) = sink_lem comparator i (i + 1) xs o (omega arith) (record {
        others = λ a b v w l r a_ne b_ne. s a b v w l (omega arith);
        above = λ b v w l r. absurd (omega arith);
      }) in
      let (sorted', perm', same') =
        sort_from_lem comparator m (i + 1) (sink comparator i xs) o (omega (arith, h, same))
          sorted in
      (
        (λ a b v w l r. sorted' a b v w l (omega (arith, r, same))),
        Perm.trans perm' perm,
        same' ∙ same,
      )

  all_rounds :
      (comparator : A → A → Bool) (xs : List A)
      → IsOrder comparator
      → let ys = sort_from comparator (length xs) 0 xs in
        SortedTo comparator (length xs) ys × Perm ys xs × (length ys ≡ length xs)
  all_rounds comparator xs o =
      sort_from_lem comparator (length xs) 0 xs o (omega arith)
        (λ i j v w l r. absurd (omega arith))

  pub length-insertion_sort :
      (comparator : A → A → Bool) (xs : List A)
      → IsOrder comparator
      → length (insertion_sort comparator xs) ≡ length xs
  unfolding insertion_sort
  length-insertion_sort comparator xs o = elim (Bool-cases (ltb (length xs) 2)) [
    | inl short ↦ rw (insertion_sort, short) refl
    | inr long ↦
        rw (insertion_sort, long) (let (sorted, perm, same) = all_rounds comparator xs o in same)
  ]

  -- With a strict order whose negation is transitive, the sort gives a permutation of the array in which no
  -- element is before one that stands ahead of it.
  pub insertion_sort_lem :
      (comparator : A → A → Bool) (xs : List A)
      → IsOrder comparator
      → SortedTo comparator (length xs) (insertion_sort comparator xs)
        × Perm (insertion_sort comparator xs) xs
  unfolding insertion_sort
  insertion_sort_lem comparator xs o = elim (Bool-cases (ltb (length xs) 2)) [
    | inl short ↦
        rw (insertion_sort, short) ((λ i j v w l r. absurd (ground (arith, short, l, r))), Perm.rfl)
    | inr long ↦
        rw (insertion_sort, long)
          (let (sorted, perm, same) = all_rounds comparator xs o in (sorted, perm))
  ]
