-- ===== src/Utilities.antt =====
-- Kernel/Common/Utilities.h: the binary searches and the sort by insertion over arrays. A comparator with the key at one
-- side is a test of an element: `key_before v` is `comparator(key, v)`, and `value_before v` is
-- `comparator(v, key)`. A pointer into the array is an index, with the length for the end, and a read
-- out of bounds gives no result.
pub mod Search
pub mod Sort
mod Tests
use ultra_os.Common.{
  ℕ, zero, suc, ◌+◌, ◌-◌, ◌/◌, ◌<◌, Bool, true, false, not, ltb, ◌==◌, if◌then◌else◌, List, [], ◌∷◌,
  Option, none, some, get_elem?, length, ◌&&◌, set,
}

module _ {ℓ} {A : Type ℓ} where
  -- The `while` loop; `stop` is `right + 1`, since `right` can be -1.
  unfoldable pub lower_bound_loop : ℕ → (A → Bool) → (A → Bool) → List A → ℕ → ℕ → ℕ → Option ℕ
  lower_bound_loop zero key_before value_before xs left stop lower_bound = none
  lower_bound_loop (suc fuel) key_before value_before xs left stop lower_bound =
      let pivot = left + (stop - 1 - left) / 2 in
      elim (ltb left stop) [
        | false ↦ some lower_bound
        | true ↦ elim (get_elem? xs pivot) [
          | none ↦ none
          | some pivot_value ↦ elim (key_before pivot_value) [
            | true ↦ lower_bound_loop fuel key_before value_before xs left pivot pivot
            | false ↦ elim (value_before pivot_value) [
              | true ↦ lower_bound_loop fuel key_before value_before xs (pivot + 1) stop lower_bound
              | false ↦ some pivot
            ]
          ]
        ]
      ]

  -- Each round leaves fewer elements, so that a round for each and one more is enough.
  unfoldable pub lower_bound : (A → Bool) → (A → Bool) → List A → Option ℕ
  unfolding lower_bound_loop
  lower_bound key_before value_before xs =
      if length xs == 0
      then some (length xs)
      else lower_bound_loop (length xs + 1) key_before value_before xs 0 (length xs) (length xs)

  unfoldable pub binary_search : (A → Bool) → (A → Bool) → List A → Option ℕ
  unfolding lower_bound
  binary_search key_before value_before xs = elim (lower_bound key_before value_before xs) [
    | none ↦ none
    | some result ↦ elim (result == length xs) [
      | true ↦ some result
      | false ↦ elim (get_elem? xs result) [
        | none ↦ none
        | some value ↦ some (if key_before value then length xs else result)
      ]
    ]
  ]

module _ {ℓ} {A : Type ℓ} where
  abbrev pub swap : ℕ → A → ℕ → A → List A → List A
  swap i v j w xs = set (set xs i w) j v

  -- The `while` loop, from the element at `j` down.
  unfoldable pub sink : (A → A → Bool) → ℕ → List A → List A
  sink comparator zero xs = xs
  sink comparator (suc j) xs = elim (get_elem? xs (suc j)) [
    | none ↦ xs
    | some v ↦ elim (get_elem? xs j) [
      | none ↦ xs
      | some w ↦ elim (comparator v w) [
        | true ↦ sink comparator j (swap (suc j) v j w xs)
        | false ↦ xs
      ]
    ]
  ]

  -- The `for` loop, `n` rounds from `i` on.
  unfoldable pub sort_from : (A → A → Bool) → ℕ → ℕ → List A → List A
  unfolding sink
  sort_from comparator zero i xs = xs
  sort_from comparator (suc n) i xs = sort_from comparator n (i + 1) (sink comparator i xs)

  unfoldable pub insertion_sort : (A → A → Bool) → List A → List A
  unfolding sort_from
  insertion_sort comparator xs =
      if ltb (length xs) 2 then xs else sort_from comparator (length xs) 0 xs
