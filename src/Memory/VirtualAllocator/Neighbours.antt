-- ===== src/Memory/VirtualAllocator/Neighbours.antt =====
-- The iterators that `is_allocated`, `allocate(Range)` and `deallocate` step to, described without
-- `lower_bound`: the last element that begins at or below an address, and the first one above it.
use native.Mathlib.Decide.{dec_le}
use ultra_os.Common.{
  ℕ, ◌+◌, ◌≤◌, ◌<◌, ◌≡◌, refl, ◌⊎◌, inl, inr, List, [], ◌∷◌, Option, none, some, arith, All,
  All-map, Elem, Option-cases, leb, ◌==◌, if◌then◌else◌,
}
use ultra_os.Memory.Range.{Range}
use ultra_os.Memory.VirtualAllocator.{at_or_before, neighbours}
use ultra_os.Memory.VirtualAllocator.RangeSet.{lower_bound, upper_bound, before, before_from}
use ultra_os.Memory.VirtualAllocator.Invariant.{Chain, Chain-All, Elem-above}

abbrev pub floor_from : Option Range → List Range → ℕ → Option Range
floor_from prev [] a = prev
floor_from prev (r ∷ rs) a =
    let rest = floor_from (some r) rs a in if leb r.begin a then rest else prev

floor_from-above :
    (prev : Option Range) (lo hi a : ℕ) (l : List Range)
    → Chain lo hi l
    → a < lo
    → floor_from prev l a ≡ prev
floor_from-above prev lo hi a [] c h = refl
floor_from-above prev lo hi a (r ∷ rs) c h = ground arith

-- The choice between the element at the address and the one before it.
abbrev pick : Option Range → Option Range → ℕ → Option Range
pick none prev a = prev
pick (some r) prev a = if r.begin == a then some r else prev

pick-floor :
    (prev : Option Range) (lo hi a : ℕ) (l : List Range)
    → Chain lo hi l
    → pick (lower_bound l a) (before_from prev l a) a ≡ floor_from prev l a
unfolding lower_bound
pick-floor prev lo hi a [] c = refl
pick-floor prev lo hi a (r ∷ rs) c = ground (
  arith,
  floor_from-above (some r) (r.end + 1) hi a rs c.3,
  pick-floor (some r) (r.end + 1) hi a rs c.3,
)

pub at_or_before-floor :
    (lo hi a : ℕ) (l : List Range) → Chain lo hi l → at_or_before l a ≡ floor_from none l a
unfolding at_or_before before
at_or_before-floor lo hi a l c = ground (arith, pick-floor none lo hi a l c)

-- An element at or above an address, which is not at it, is above it.
lower-upper :
    (lo hi a : ℕ) (l : List Range) (r : Range)
    → Chain lo hi l
    → lower_bound l a ≡ some r
    → (r.begin ≡ a → ⊥)
    → upper_bound l a ≡ some r
unfolding lower_bound upper_bound
lower-upper lo hi a [] r c e ne = ground arith
lower-upper lo hi a (s ∷ rs) r c e ne = ground (arith, lower-upper (s.end + 1) hi a rs r c.3)

lower-none : (a : ℕ) (l : List Range) → lower_bound l a ≡ none → upper_bound l a ≡ none
unfolding lower_bound upper_bound
lower-none a [] e = refl
lower-none a (s ∷ rs) e = ground (arith, lower-none a rs)

pub neighbours-floor :
    (lo hi a : ℕ) (l : List Range)
    → Chain lo hi l
    → neighbours l a ≡ (floor_from none l a, upper_bound l a)
unfolding neighbours before
neighbours-floor lo hi a l c = elim (Option-cases (lower_bound l a)) [
  | inl e ↦ ground (arith, pick-floor none lo hi a l c, lower-none a l e)
  | inr (r, e) ↦ ground (arith, pick-floor none lo hi a l c, lower-upper lo hi a l r c e)
]

-- `o` is the last element that begins at or below `a`; the others end below it or begin above `a`.
abbrev pub IsFloor : Option Range → List Range → ℕ → Option Range → Type 0
IsFloor prev l a o =
    ((o ≡ prev) × All (λ s. a < s.begin) l)
    ⊎ ((r : Range) × (o ≡ some r)
        × Elem r l
        × (r.begin ≤ a)
        × All (λ s. (s ≡ r) ⊎ (s.end < r.begin) ⊎ (a < s.begin)) l)

pub floor_from-IsFloor :
    (prev : Option Range) (lo hi a : ℕ) (l : List Range)
    → Chain lo hi l
    → IsFloor prev l a (floor_from prev l a)
floor_from-IsFloor prev lo hi a [] c = inl (refl, tt)
floor_from-IsFloor prev lo hi a (r ∷ rs) c = elim (dec_le r.begin a) [
  | yes p ↦ elim (floor_from-IsFloor (some r) (r.end + 1) hi a rs c.3) [
    | inl (e, f) ↦ inr (r, ground arith, inl refl, p, (inl refl, All-map rs (λ s h. inr (inr h)) f))
    | inr (q, e, m, b, f) ↦ inr (
      q,
      ground arith,
      inr m,
      b,
      (inr (inl (ground (arith, Elem-above q (r.end + 1) hi rs c.3 m))), f),
    )
  ]
  | no p ↦ inl (
    ground arith,
    (omega arith, All-map rs (λ s h. omega (arith, h)) (Chain-All (r.end + 1) hi rs c.3)),
  )
]

-- `o` is the first element that begins above `a`.
abbrev pub IsUpper : List Range → ℕ → Option Range → Type 0
IsUpper l a o =
    ((o ≡ none) × All (λ s. s.begin ≤ a) l)
    ⊎ ((r : Range) × (o ≡ some r)
        × Elem r l
        × (a < r.begin)
        × All (λ s. (s.begin ≤ a) ⊎ (s ≡ r) ⊎ (r.end < s.begin)) l)

pub upper_bound-IsUpper :
    (lo hi a : ℕ) (l : List Range) → Chain lo hi l → IsUpper l a (upper_bound l a)
unfolding upper_bound
upper_bound-IsUpper lo hi a [] c = inl (refl, tt)
upper_bound-IsUpper lo hi a (r ∷ rs) c = elim (dec_le r.begin a) [
  | yes p ↦ elim (upper_bound-IsUpper (r.end + 1) hi a rs c.3) [
    | inl (e, f) ↦ inl (ground arith, (p, f))
    | inr (q, e, m, b, f) ↦ inr (q, ground arith, inr m, b, (inl p, f))
  ]
  | no p ↦ inr (
    r,
    ground arith,
    inl refl,
    omega arith,
    (
      inr (inl refl),
      All-map rs (λ s h. inr (inr (omega (arith, h)))) (Chain-All (r.end + 1) hi rs c.3),
    ),
  )
]
