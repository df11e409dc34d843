-- ===== src/Memory/VirtualAllocator/Query.antt =====
-- The allocator's invariant, and `is_allocated`.
use ultra_os.Common.{
  ℕ, ◌<◌, ◌≡◌, refl, ◌∙◌, subst, ◌⊎◌, ◌↔◌, inl, inr, true, false, List, [], ◌∷◌, none, some, arith,
  Elem, Option-cases,
}
use ultra_os.Memory.Range.{Range}
use ultra_os.Memory.Range.Bounds
use ultra_os.Memory.Range.Laws.{In}
use ultra_os.Memory.VirtualAllocator.{VirtualAllocator, is_allocated, at_or_before}
use ultra_os.Memory.VirtualAllocator.RangeSet.{is_nil}
use ultra_os.Memory.VirtualAllocator.Invariant.{Chain, Covered, Within, Chain-All, All-Elem}
use ultra_os.Memory.VirtualAllocator.Neighbours.{at_or_before-floor, floor_from-IsFloor}

-- The base range is well formed, and the allocated ranges lie in it, in order, with gaps between.
pub record Inv (s : VirtualAllocator) : Type 0 where
  pub base_valid : Bounds.IsValid s.base
  pub chain : Chain s.base.begin s.base.end s.ranges

pub Covered-Elem : (a : ℕ) (x : Range) (l : List Range) → Elem x l → In a x → Covered a l
Covered-Elem a x [] m h = elim m [ ]
Covered-Elem a x (r ∷ rs) (inl e) h = ground arith
Covered-Elem a x (r ∷ rs) (inr m) h = inr (Covered-Elem a x rs m h)

-- Some element holds a covered address.
pub Covered-witness : (a : ℕ) (l : List Range) → Covered a l → (x : Range) × Elem x l × In a x
Covered-witness a [] c = elim c [ ]
Covered-witness a (r ∷ rs) (inl h) = (r, inl refl, h)
Covered-witness a (r ∷ rs) (inr c) = let (x, m, h) = Covered-witness a rs c in (x, inr m, h)

-- The last element that begins at or below a covered address holds it.
pub floor-holds :
    (lo hi a : ℕ) (l : List Range)
    → Chain lo hi l
    → Covered a l
    → (r : Range) × (at_or_before l a ≡ some r) × Elem r l × In a r
floor-holds lo hi a l c h =
    let (x, m, i) = Covered-witness a l h in
    elim (floor_from-IsFloor none lo hi a l c) [
      | inl (e, f) ↦ absurd (omega (arith, i, All-Elem (λ s. a < s.begin) x l m f))
      | inr (r, e, k, b, f) ↦ (
        r,
        at_or_before-floor lo hi a l c ∙ e,
        k,
        ground (arith, i, All-Elem (λ s. (s ≡ r) ⊎ (s.end < r.begin) ⊎ (a < s.begin)) x l m f),
      )
    ]

pub floor-Elem :
    (lo hi a : ℕ) (l : List Range) (r : Range)
    → Chain lo hi l
    → at_or_before l a ≡ some r
    → Elem r l
floor-Elem lo hi a l r c e = elim (floor_from-IsFloor none lo hi a l c) [
  | inl (p, f) ↦ absurd (ground (arith, at_or_before-floor lo hi a l c))
  | inr (q, p, k, b, f) ↦ subst (λ y. Elem y l) (ground (arith, at_or_before-floor lo hi a l c)) k
]

pub nonempty-Elem : (r : Range) (l : List Range) → Elem r l → is_nil l ≡ false
nonempty-Elem r [] m = elim m [ ]
nonempty-Elem r (x ∷ xs) m = refl

covered→allocated :
    (s : VirtualAllocator) (a : ℕ) → Inv s → Covered a s.ranges → is_allocated s a ≡ true
unfolding is_allocated
covered→allocated s a v h =
    let (r, e, m, i) = floor-holds s.base.begin s.base.end a s.ranges v.chain h in
    let w =
      All-Elem (Within s.base.begin s.base.end) r s.ranges m (Chain-All _ _ s.ranges v.chain) in
    ground (arith, nonempty-Elem r s.ranges m)

allocated→covered :
    (s : VirtualAllocator) (a : ℕ) → Inv s → is_allocated s a ≡ true → Covered a s.ranges
unfolding is_allocated
allocated→covered s a v h = elim (Option-cases (at_or_before s.ranges a)) [
  | inl e ↦ absurd (ground arith)
  | inr (r, e) ↦
      Covered-Elem a r s.ranges (floor-Elem s.base.begin s.base.end a s.ranges r v.chain e)
        (ground arith)
]

-- `is_allocated` is true exactly at the addresses of the allocated ranges.
pub is_allocated_iff :
    (s : VirtualAllocator) (a : ℕ) → Inv s → (is_allocated s a ≡ true) ↔ Covered a s.ranges
is_allocated_iff s a v = (allocated→covered s a v, covered→allocated s a v)
