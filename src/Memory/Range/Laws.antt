-- ===== src/Memory/Range/Laws.antt =====
-- What the operations on ranges mean for the addresses in them.
use ultra_os.Common.{
  ℕ, Bool-cases, ltb, leb, ◌||◌, next_multiple-le, next_multiple-mod, ◌+◌, ◌%◌, ◌^◌, ◌≤◌, ◌<◌, ◌*◌,
  max, ◌≡◌, ◌⊎◌, ◌↔◌, inl, inr, true, ok, Result-cases, arith,
}
use native.Mathlib.Decide.{ℕ_discrete}
use ultra_os.Memory.Range.{
  Range, overlaps, contains_address, constrained_by, aligned_to, no_range, aligned_begin,
}
use ultra_os.Memory.Range.Bounds.{IsValid, aligned_to-IsValid}

-- `a` lies in `r`.
abbrev pub In : ℕ → Range → Type 0
In a r = (r.begin ≤ a) × (a < r.end)

pub contains_address_iff : (r : Range) (a : ℕ) → (contains_address r a ≡ true) ↔ In a r
contains_address_iff r a = ground arith

overlaps→common :
    (r s : Range) → IsValid r → IsValid s → overlaps r s ≡ true → (a : ℕ) × In a r × In a s
unfolding overlaps
overlaps→common r s v w h = (max r.begin s.begin, ground arith, ground arith)

common→overlaps : (r s : Range) (a : ℕ) → In a r → In a s → overlaps r s ≡ true
unfolding overlaps
common→overlaps r s a h k = ground arith

-- On well-formed ranges `overlaps` is true exactly when some address lies in both.
pub overlaps_iff :
    (r s : Range) → IsValid r → IsValid s → (overlaps r s ≡ true) ↔ ((a : ℕ) × In a r × In a s)
overlaps_iff r s v w = (overlaps→common r s v w, λ (a, h, k). common→overlaps r s a h k)

-- `constrained_by` never asserts under its precondition, and the result is a well-formed range of
-- exactly the addresses of `r` from `lowest` up to, and without, `highest`.
pub constrained_by_intersection :
    (r : Range) (lowest highest : ℕ)
    → IsValid r
    → lowest < highest
    → highest < 2 ^ 64
    → (c : Range) × (constrained_by r lowest highest ≡ ok c)
      × IsValid c
      × ((a : ℕ) → In a c ↔ (In a r × (lowest ≤ a) × (a < highest)))
unfolding constrained_by
constrained_by_intersection r lowest highest v h k =
    elim (Result-cases (constrained_by r lowest highest)) [
      | inl (c, e) ↦ (c, e, ground arith, λ a. ground arith)
      | inr (f, e) ↦ absurd (ground arith)
    ]

-- A multiple in the range is at or after `aligned_begin`, where that does not wrap.
aligned_begin-le :
    (r : Range) (alignment k : ℕ)
    → IsValid r
    → 0 < alignment
    → In (k * alignment) r
    → (r.begin ≤ aligned_begin r alignment) × (aligned_begin r alignment ≤ k * alignment)
aligned_begin-le r alignment k v h (lo, hi) = elim (ℕ_discrete (r.begin % alignment) 0) [
  | yes e ↦ ground arith
  | no ne ↦ ground (arith, next_multiple-le alignment r.begin k h ne)
]

-- `aligned_to` never asserts. If the result holds an address, it starts at the first multiple of
-- the alignment from `r.begin` on, and ends where `r` ends; if it is empty, then `r` holds no
-- multiple of the alignment.
pub aligned_to_first :
    (r : Range) (alignment : ℕ)
    → IsValid r
    → 0 < alignment
    → alignment < 2 ^ 64
    → (c : Range) × (aligned_to r alignment ≡ ok c)
      × IsValid c
      × (((c.end ≡ r.end)
            × (c.begin < c.end)
            × (c.begin % alignment ≡ 0)
            × (r.begin ≤ c.begin)
            × (c.begin < r.begin + alignment))
          ⊎ ((c ≡ no_range) × ((k : ℕ) → ¬ In (k * alignment) r)))
unfolding aligned_to
aligned_to_first r alignment v h k =
    let b : ℕ = aligned_begin r alignment in
    elim (Result-cases (aligned_to r alignment)) [
      | inl (c, e) ↦ (
        c,
        e,
        aligned_to-IsValid alignment v e,
        elim (Bool-cases (ltb b r.begin || leb r.end b)) [
          | inl out ↦
              inr
                (ground arith, λ n m. absurd (ground (arith, aligned_begin-le r alignment n v h m)))
          | inr fits ↦ inl (ground (arith, next_multiple-mod alignment r.begin))
        ],
      )
      | inr (f, e) ↦ absurd (ground arith)
    ]
