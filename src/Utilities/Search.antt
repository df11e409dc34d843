-- ===== src/Utilities/Search.antt =====
-- The binary searches of Kernel/Common/Utilities.h.
use ultra_os.Common.{
  ℕ, zero, suc, ◌+◌, ◌-◌, ◌/◌, ◌≤◌, ◌<◌, ◌≡◌, refl, subst, ◌⊎◌, inl, inr, Bool, true, false, ltb,
  ◌==◌, List, [], ◌∷◌, Option, some, Bool-cases, get_elem?, length, arith,
}
use native.Mathlib.Decide.{dec_lt}
use ultra_os.Utilities.{lower_bound_loop, lower_bound, binary_search}

module _ {ℓ} {A : Type ℓ} where
  pub get_elem?-some : (xs : List A) (i : ℕ) → i < length xs → (v : A) × (get_elem? xs i ≡ some v)
  get_elem?-some [] i h = absurd (omega arith)
  get_elem?-some (x ∷ xs) zero h = (x, refl)
  get_elem?-some (x ∷ xs) (suc i) h = get_elem?-some xs i (omega arith)

  pub get_elem?-lt : (xs : List A) (i : ℕ) (v : A) → get_elem? xs i ≡ some v → i < length xs
  get_elem?-lt [] i v e = absurd (ground (arith, e))
  get_elem?-lt (x ∷ xs) zero v e = omega arith
  get_elem?-lt (x ∷ xs) (suc i) v e = omega (arith, get_elem?-lt xs i v e)

  -- The elements in order: those before the key, then others, then those that it is before.
  pub record IsOrdered (key_before value_before : A → Bool) (xs : List A) : Type ℓ where
    pub upward :
        (i j : ℕ) (v w : A)
        → i ≤ j
        → get_elem? xs i ≡ some v
        → get_elem? xs j ≡ some w
        → key_before v ≡ true
        → key_before w ≡ true
    pub downward :
        (i j : ℕ) (v w : A)
        → i ≤ j
        → get_elem? xs i ≡ some v
        → get_elem? xs j ≡ some w
        → value_before w ≡ true
        → value_before v ≡ true

  -- At `r` is an element equivalent to the key.
  abbrev pub IsMatch : (A → Bool) → (A → Bool) → List A → ℕ → Type ℓ
  IsMatch key_before value_before xs r =
      (v : A) × (get_elem? xs r ≡ some v) × (key_before v ≡ false) × (value_before v ≡ false)

  abbrev pub IsBelow : (A → Bool) → List A → ℕ → Type ℓ
  IsBelow value_before xs r =
      (i : ℕ) (v : A) → i < r → get_elem? xs i ≡ some v → value_before v ≡ true

  abbrev pub IsAbove : (A → Bool) → List A → ℕ → Type ℓ
  IsAbove key_before xs r = (i : ℕ) (v : A) → r ≤ i → get_elem? xs i ≡ some v → key_before v ≡ true

  -- No element is equivalent, and `r` is where the key would stand.
  abbrev pub IsPlace : (A → Bool) → (A → Bool) → List A → ℕ → Type ℓ
  IsPlace key_before value_before xs r =
      (r ≤ length xs) × IsBelow value_before xs r × IsAbove key_before xs r

  abbrev Searched : (A → Bool) → (A → Bool) → List A → Option ℕ → Type ℓ
  Searched kb vb xs result = (r : ℕ) × (result ≡ some r) × (IsMatch kb vb xs r ⊎ IsPlace kb vb xs r)

  loop-Searched :
      (fuel : ℕ) (kb vb : A → Bool) (xs : List A) (left stop : ℕ)
      → IsOrdered kb vb xs
      → left ≤ stop
      → stop ≤ length xs
      → stop - left < fuel
      → IsBelow vb xs left
      → IsAbove kb xs stop
      → Searched kb vb xs (lower_bound_loop fuel kb vb xs left stop stop)
  unfolding lower_bound_loop
  loop-Searched zero kb vb xs left stop o l s f below above = absurd (omega arith)
  loop-Searched (suc fuel) kb vb xs left stop o l s f below above =
      elim (Bool-cases (ltb left stop)) [
        | inr done ↦
            (let same : left ≡ stop = ground (arith, done, l) in
              rw (lower_bound_loop, done)
                (stop, refl, inr (s, subst (IsBelow vb xs) same below, above)))
        | inl more ↦
            (let lt : left < stop = ground (arith, more) in
              let pivot = left + (stop - 1 - left) / 2 in
              let inside : pivot < stop = omega (arith, lt) in
              let (v, e) = get_elem?-some xs pivot (omega (arith, inside, s)) in
              elim (Bool-cases (kb v)) [
                | inl k ↦
                    rw (lower_bound_loop, more, e, k)
                      (loop-Searched fuel kb vb xs left pivot o (omega arith)
                        (omega (arith, inside, s)) (omega (arith, inside, f)) below
                        (λ i w h q. o.upward pivot i v w h e q k))
                | inr k ↦ elim (Bool-cases (vb v)) [
                  | inl b ↦
                      rw (lower_bound_loop, more, e, k, b)
                        (loop-Searched fuel kb vb xs (pivot + 1) stop o (omega (arith, inside)) s
                          (omega (arith, inside, f))
                          (λ i w h q. o.downward i pivot w v (omega arith) q e b) above)
                  | inr b ↦ rw (lower_bound_loop, more, e, k, b) (pivot, refl, inl (v, e, k, b))
                ]
              ])
      ]

  -- On an ordered array the search returns, either an element that is equivalent to the key, or, when there
  -- is none, the place behind the elements before the key, which is before all that follow.
  pub lower_bound_lem :
      (key_before value_before : A → Bool) (xs : List A)
      → IsOrdered key_before value_before xs
      → (r : ℕ) × (lower_bound key_before value_before xs ≡ some r)
        × (IsMatch key_before value_before xs r ⊎ IsPlace key_before value_before xs r)
  unfolding lower_bound
  lower_bound_lem key_before value_before [] o = (
    0,
    refl,
    inr (omega arith, (λ i v h. absurd (omega arith)), λ i v h e. absurd (ground (arith, e))),
  )
  lower_bound_lem key_before value_before (x ∷ xs) o =
      let all = x ∷ xs in
      let nonempty : (length all == 0) ≡ false = ground arith in
      rw (lower_bound, nonempty)
        (loop-Searched (length all + 1) key_before value_before all 0 (length all) o (omega arith)
          (omega arith) (omega arith) (λ i v h. absurd (omega arith))
          (λ i v h e. absurd (omega (arith, h, get_elem?-lt all i v e))))

  place_excludes :
      (kb vb : A → Bool) (xs : List A) (r : ℕ)
      → IsPlace kb vb xs r
      → (i : ℕ) (v : A) → get_elem? xs i ≡ some v
      → (kb v ≡ true) ⊎ (vb v ≡ true)
  place_excludes kb vb xs r (h, below, above) i v e = elim (dec_lt i r) [
    | yes p ↦ inr (below i v p e)
    | no p ↦ inl (above i v (omega arith) e)
  ]

  -- On an ordered array the search returns: the index of an element that is equivalent to the key, or the
  -- end, and then there is none.
  pub binary_search_lem :
      (key_before value_before : A → Bool) (xs : List A)
      → IsOrdered key_before value_before xs
      → (r : ℕ) × (binary_search key_before value_before xs ≡ some r)
        × (IsMatch key_before value_before xs r
            ⊎ ((r ≡ length xs)
                × ((i : ℕ) (v : A)
                    → get_elem? xs i ≡ some v
                    → (key_before v ≡ true) ⊎ (value_before v ≡ true))))
  unfolding binary_search
  binary_search_lem kb vb xs o =
      let (r, q, found) = lower_bound_lem kb vb xs o in
      elim found [
        | inl (v, e, k, b) ↦
            (let inner : (r == length xs) ≡ false = ground (arith, get_elem?-lt xs r v e) in
              (r, rw (binary_search, q, inner, e, k) refl, inl (v, e, k, b)))
        | inr place ↦ elim (Bool-cases (r == length xs)) [
          | inl last ↦ (
            r,
            rw (binary_search, q, last) refl,
            inr (ground (arith, last), place_excludes kb vb xs r place),
          )
          | inr inner ↦
              (let (v, e) = get_elem?-some xs r (ground (arith, inner, place.0)) in
                let k = place.2 r v (omega arith) e in
                (
                  length xs,
                  rw (binary_search, q, inner, e, k) refl,
                  inr (refl, place_excludes kb vb xs r place),
                ))
        ]
      ]
