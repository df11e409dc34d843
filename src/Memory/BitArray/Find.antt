-- ===== src/Memory/BitArray/Find.antt =====
-- `DynamicBitArray::find_bit` finds a bit of the value wherever there is one.
use ultra_os.Common.{
  ℕ, zero, suc, ◌+◌, ◌-◌, ◌*◌, ◌/◌, ◌%◌, ◌≤◌, ◌<◌, ◌≡◌, ◌≢◌, refl, ap, Bool, true, false, ltb, List,
  [], ◌∷◌, Option, none, some, get_or, length, ok, arith, ◌⊎◌, inl, inr, Option-cases, Bool-cases,
}
use native.Mathlib.Decide.{ℕ_discrete, dec_lt}
use ultra_os.Memory.BitArray.{
  BitArray, bit_at, units_of, first_bit, find_in_units, find_bit, same_bit,
}
use ultra_os.Memory.BitArray.Bits.{IsValid, units_of-covers}

same_bit→≡ : (v b : Bool) → same_bit v b ≡ true → b ≡ v
same_bit→≡ v b h = ground arith

same_bit→≢ : (v b : Bool) → same_bit v b ≡ false → b ≢ v
same_bit→≢ v b h = ground arith

later :
    (b : Bool) (bs : List Bool) (v : Bool) (k : ℕ)
    → same_bit v b ≡ false
    → ((j : ℕ) → j < k → get_or bs j false ≢ v)
    → (j : ℕ) → j < suc k
    → get_or (b ∷ bs) j false ≢ v
later b bs v k miss before zero l = same_bit→≢ v b miss
later b bs v k miss before (suc j) l = before j (omega arith)

first_bit-some :
    (v : Bool) (unit : List Bool) (k : ℕ)
    → first_bit v unit ≡ some k
    → (k < length unit) × (get_or unit k false ≡ v) × ((j : ℕ) → j < k → get_or unit j false ≢ v)
unfolding first_bit
first_bit-some v [] k e = absurd (ground arith)
first_bit-some v (b ∷ bs) zero e = elim (Bool-cases (same_bit v b)) [
  | inl hit ↦ (omega arith, same_bit→≡ v b hit, λ j l. absurd (omega arith))
  | inr miss ↦ elim (Option-cases (first_bit v bs)) [
    | inl z ↦ absurd (ground (arith, z))
    | inr (k, z) ↦ absurd (ground (arith, z))
  ]
]
first_bit-some v (b ∷ bs) (suc k) e = elim (Option-cases (first_bit v bs)) [
  | inl z ↦ absurd (ground (arith, z))
  | inr (k', z) ↦
      let miss : same_bit v b ≡ false = ground (arith, z) in
      let (l, hit, before) = first_bit-some v bs k (ground (arith, z)) in
      (omega arith, hit, λ j. later b bs v k miss before j)
]

first_bit-none :
    (v : Bool) (unit : List Bool)
    → first_bit v unit ≡ none
    → (j : ℕ) → j < length unit
    → get_or unit j false ≢ v
unfolding first_bit
first_bit-none v [] e j h = absurd (omega arith)
first_bit-none v (b ∷ bs) e zero h = ground (arith, e)
first_bit-none v (b ∷ bs) e (suc j) h = first_bit-none v bs (ground (arith, e)) j (omega arith)

-- What the search over units says of the bits it has seen: those from `lo` up to, and without, `hi`.
abbrev Hit : Bool → BitArray → ℕ → Type 0
Hit v b k = (k < b.bit_count) × (bit_at k b ≡ v)

abbrev Miss : Bool → BitArray → ℕ → ℕ → Type 0
Miss v b lo hi = (k : ℕ) → lo ≤ k → k < hi → k < b.bit_count → bit_at k b ≢ v

find_in_units-some :
    (v : Bool) (n u : ℕ) (b : BitArray) (k : ℕ)
    → IsValid b
    → u + n ≤ length b.units
    → find_in_units v n u b ≡ some k
    → Hit v b k
unfolding find_in_units bit_at
find_in_units-some v zero u b k w h e = absurd (ground arith)
find_in_units-some v (suc n) u b k w h e = elim (Option-cases (first_bit v (get_or b.units u []))) [
  | inl z ↦ find_in_units-some v n (u + 1) b k w (omega arith) (ground (arith, z))
  | inr (t, z) ↦
      let (l, hit, before) = first_bit-some v (get_or b.units u []) t z in
      let small : t < 64 = omega (arith, l, w.full u (omega arith)) in
      let at : k ≡ t + u * 64 = ground (arith, z) in
      let unit : k / 64 ≡ u = omega arith in
      let place : k % 64 ≡ t = omega arith in (ground (arith, z), rw (unit, place) hit)
]

find_in_units-none :
    (v : Bool) (n u : ℕ) (b : BitArray)
    → IsValid b
    → u + n ≤ length b.units
    → find_in_units v n u b ≡ none
    → Miss v b (u * 64) ((u + n) * 64)
unfolding find_in_units bit_at
find_in_units-none v zero u b w h e = λ k l m x. absurd (omega arith)
find_in_units-none v (suc n) u b w h e = elim (Option-cases (first_bit v (get_or b.units u []))) [
  | inl z ↦
      let rest = find_in_units-none v n (u + 1) b w (omega arith) (ground (arith, z)) in
      λ k l m x. elim (ℕ_discrete (k / 64) u) [
        | yes q ↦ rw q (
            first_bit-none v (get_or b.units u []) z (k % 64)
              (omega (arith, w.full u (omega arith))))
        | no ne ↦ rest k (omega arith) (omega arith) x
      ]
  | inr (t, z) ↦
      let (l', hit, before) = first_bit-some v (get_or b.units u []) t z in
      let small : t < 64 = omega (arith, l', w.full u (omega arith)) in
      let beyond : b.bit_count ≤ t + u * 64 = ground (arith, z) in
      λ k l m x. (let unit : k / 64 ≡ u = omega arith in rw unit (before (k % 64) (omega arith)))
]

module _ (v : Bool) (hint : ℕ) (b : BitArray) (w : IsValid b) (h : hint < b.bit_count) where
  abbrev passes : Option ℕ
  passes = elim (find_in_units v (units_of b.bit_count - hint / 64) (hint / 64) b) [
    | none ↦ find_in_units v (hint / 64) 0 b
    | some k ↦ some k
  ]

  passes_lem :
      ((k : ℕ) × (passes ≡ some k) × Hit v b k) ⊎ ((passes ≡ none) × Miss v b 0 b.bit_count)
  passes_lem =
      let covers = units_of-covers b.bit_count in
      let n = units_of b.bit_count - hint / 64 in
      let units : units_of b.bit_count ≤ length b.units = omega (arith, w.covers, covers) in
      elim (Option-cases (find_in_units v n (hint / 64) b)) [
        | inr (k, e) ↦
            inl (k, rw (passes, e) refl, find_in_units-some v n (hint / 64) b k w (omega arith) e)
        | inl e ↦ elim (Option-cases (find_in_units v (hint / 64) 0 b)) [
          | inr (k, e') ↦
              inl (k, rw (passes, e) e', find_in_units-some v (hint / 64) 0 b k w (omega arith) e')
          | inl e' ↦
              let high = find_in_units-none v n (hint / 64) b w (omega arith) e in
              let low = find_in_units-none v (hint / 64) 0 b w (omega arith) e' in
              inr (
                rw (passes, e) e',
                λ k _ _ x. elim (dec_lt k (hint / 64 * 64)) [
                  | yes p ↦ low k (omega arith) (omega arith) x
                  | no p ↦ high k (omega arith) (omega (arith, covers)) x
                ],
              )
        ]
      ]

-- From a hint within the array, `find_bit` gives the index of a bit of the array that has the value, or
-- nothing, and nothing only if no bit of the array has the value.
pub find_bit_complete :
    (v : Bool) (hint : ℕ) (b : BitArray)
    → IsValid b
    → hint < b.bit_count
    → ((k : ℕ) × (find_bit v hint b ≡ ok (some k)) × (k < b.bit_count) × (bit_at k b ≡ v))
      ⊎ ((find_bit v hint b ≡ ok none) × ((k : ℕ) → k < b.bit_count → bit_at k b ≢ v))
unfolding find_bit
find_bit_complete v hint b w h =
    let allowed : ltb hint b.bit_count ≡ true = ground arith in
    elim (passes_lem v hint b w h) [
      | inl (k, e, hit) ↦ inl (k, rw (find_bit, allowed) (ap ok e), hit.0, hit.1)
      | inr (e, miss) ↦ inr (rw (find_bit, allowed) (ap ok e), λ k x. miss k (omega arith) x x)
    ]
