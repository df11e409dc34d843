-- ===== src/Memory/VirtualAllocator/Deallocate.antt =====
-- `deallocate`: which ranges it takes, and what it leaves.
use ultra_os.Common.{
  ℕ, ◌%◌, ◌≤◌, ◌<◌, ◌≡◌, ◌⊎◌, ◌↔◌, inl, inr, true, List, [], ◌∷◌, some, ok, err, panic, arith, All,
  All-map, Elem, Option-cases, Bool-cases,
}
use native.Mathlib.Decide.{ℕ_discrete, dec_le}
use ultra_os.Memory.Range.{Range, contains}
use ultra_os.Memory.Range.Bounds
use ultra_os.Memory.Range.Laws.{In}
use ultra_os.Memory.VirtualAllocator.{VirtualAllocator, deallocate, at_or_before, emplace_nonempty}
use ultra_os.Memory.VirtualAllocator.RangeSet.{remove, emplace}
use ultra_os.Memory.VirtualAllocator.Invariant.{
  Chain, Covered, Apart, Within, Chain-All, All-Elem, emplace-Chain, emplace-Covered, Elem-Apart,
  remove-Chain, remove-All, remove-Covered,
}
use ultra_os.Memory.VirtualAllocator.Query.{
  Inv, Covered-Elem, Covered-witness, floor-holds, floor-Elem, nonempty-Elem,
}

emplace-All {κ} :
    (P : Range → Type κ) (x : Range) (l : List Range) → P x → All P l → All P (emplace x l)
unfolding emplace
emplace-All P x [] p f = (p, tt)
emplace-All P x (r ∷ rs) p f = ground (arith, emplace-All P x rs p f.1)

-- A part of a range is apart from what the range is apart from.
abbrev Part : Range → Range → Type 0
Part x p = (x.begin ≤ p.begin) × (p.begin ≤ p.end) × (p.end ≤ x.end)

-- What `if (range) emplace(range)` does to a chain that is apart from the range.
emplace_nonempty-Chain :
    (lo hi : ℕ) (l : List Range) (x : Range)
    → Chain lo hi l
    → x.begin ≤ x.end
    → lo ≤ x.begin
    → x.end ≤ hi
    → All (Apart x) l
    → Chain lo hi (emplace_nonempty x l)
      × ((a : ℕ) → Covered a (emplace_nonempty x l) ↔ (In a x ⊎ Covered a l))
emplace_nonempty-Chain lo hi l x c o b e f = elim (ℕ_discrete x.begin x.end) [
  | yes p ↦ (ground arith, λ a. (ground arith, ground arith))
  | no n ↦
      let g = emplace-Chain x lo hi l c (omega arith) b e f in
      let h = λ (a : ℕ).
        emplace-Covered x a l f (omega arith) (All-map l (λ r h. h.1) (Chain-All lo hi l c)) in
      (ground (arith, g), λ a. (ground (arith, h a), ground (arith, h a)))
]

emplace_nonempty-All {κ} :
    (P : Range → Type κ) (x : Range) (l : List Range) → P x → All P l → All P (emplace_nonempty x l)
emplace_nonempty-All P x l p f = ground (arith, emplace-All P x l p f)

-- What stays of the element `it` when `range`, a part of it, is cut out.
abbrev head_of : Range → Range → Range
head_of it range = record { begin = it.begin; end = range.begin }

abbrev tail_of : Range → Range → Range
tail_of it range = record { begin = range.end; end = it.end }

-- The ranges that `cut_out` leaves.
abbrev cut_ranges : List Range → Range → Range → List Range
cut_ranges l range it =
    emplace_nonempty (tail_of it range) (emplace_nonempty (head_of it range) (remove it l))

Apart-Covered : (a : ℕ) (x : Range) (l : List Range) → All (Apart x) l → Covered a l → In a x → ⊥
Apart-Covered a x [] f c h = c
Apart-Covered a x (r ∷ rs) f c h = ground (arith, Apart-Covered a x rs f.1)

module _ (lo hi : ℕ) (l : List Range) (it range : Range) (c : Chain lo hi l) (m : Elem it l) where
  Part-Apart : (p : Range) → Part it p → All (Apart p) (remove it l)
  Part-Apart p h =
      remove-All (Apart p) it lo hi l c m
        (All-map l (λ r q. ground (arith, q)) (Elem-Apart it lo hi l c m))

  cut_ranges-Chain :
      it.begin ≤ range.begin
      → range.begin < range.end
      → range.end ≤ it.end
      → Chain lo hi (cut_ranges l range it)
        × ((a : ℕ) → Covered a (cut_ranges l range it) ↔ (Covered a l × (In a range → ⊥)))
  cut_ranges-Chain b n e =
      let w = All-Elem (Within lo hi) it l m (Chain-All lo hi l c) in
      let t = tail_of it range in
      let h = head_of it range in
      let rest = remove it l in
      let first =
        emplace_nonempty-Chain lo hi rest h (remove-Chain it lo hi l c) b w.0 (omega (arith, w))
          (Part-Apart h (omega (arith, w))) in
      let second =
        emplace_nonempty-Chain lo hi (emplace_nonempty h rest) t first.0 e (omega (arith, w)) w.2
          (emplace_nonempty-All (Apart t) h rest (inr n) (Part-Apart t (omega (arith, w)))) in
      (
        second.0,
        λ a.
            let i = first.1 a in
            let j = second.1 a in
            let k = remove-Covered it a lo hi l c m in
            let out = Apart-Covered a it rest (Part-Apart it (omega (arith, w))) in
            (ground (arith, i, j, k, out), ground (arith, i, j, k)),
      )

-- The elements that `deallocate` finds at a range whose addresses are all allocated hold it whole.
holds_whole :
    (lo hi : ℕ) (l : List Range) (range : Range)
    → Chain lo hi l
    → range.begin < range.end
    → ((a : ℕ) → In a range → Covered a l)
    → (r : Range) × (at_or_before l range.begin ≡ some r) × Elem r l × (contains r range ≡ true)
holds_whole lo hi l range c n cov =
    let (r, e, m, i) = floor-holds lo hi range.begin l c (cov range.begin (omega arith)) in
    elim (dec_le range.end r.end) [
      | yes p ↦ (r, e, m, ground (arith, i))
      | no np ↦
          let (x, k, j) = Covered-witness r.end l (cov r.end (omega (arith, i))) in
          absurd (
            ground
              (arith, i, j, All-Elem (λ s. (s ≡ r) ⊎ Apart r s) x l k (Elem-Apart r lo hi l c m)))
    ]

-- Whether the range was handed out or not, as far as `deallocate` can tell.
module _ (s : VirtualAllocator) (range : Range) (v : Inv s) (w : Bounds.IsValid range)
    (n : range.begin < range.end) (b : range.begin % 4096 ≡ 0) (e : range.end % 4096 ≡ 0) where
  -- A page-aligned range that is allocated, every address of it, is taken back: afterwards the
  -- invariant holds, and exactly the addresses of the range are no longer allocated.
  pub deallocate_allocated :
      ((a : ℕ) → In a range → Covered a s.ranges)
      → (s' : VirtualAllocator) × (deallocate s range ≡ ok s')
        × Inv s'
        × ((a : ℕ) → Covered a s'.ranges ↔ (Covered a s.ranges × ¬ In a range))
  unfolding deallocate
  deallocate_allocated cov =
      let (it, f, m, h) = holds_whole s.base.begin s.base.end s.ranges range v.chain n cov in
      let u =
        All-Elem (Within s.base.begin s.base.end) it s.ranges m (Chain-All _ _ s.ranges v.chain) in
      let cut =
        cut_ranges-Chain s.base.begin s.base.end s.ranges it range v.chain m (ground arith) n
          (ground arith) in
      (
        record s { ranges = cut_ranges s.ranges range it },
        ground (arith, nonempty-Elem it s.ranges m),
        record { base_valid = v.base_valid; chain = cut.0 },
        cut.1,
      )

  -- A page-aligned range with an address that is not allocated makes `deallocate` panic.
  pub deallocate_unallocated :
      (a : ℕ) → In a range → ¬ Covered a s.ranges → deallocate s range ≡ err panic
  unfolding deallocate
  deallocate_unallocated a i nc = elim (Option-cases (at_or_before s.ranges range.begin)) [
    | inl f ↦ ground arith
    | inr (it, f) ↦ elim (Bool-cases (contains it range)) [
      | inl h ↦ absurd (
          nc (
            Covered-Elem a it s.ranges
              (floor-Elem s.base.begin s.base.end range.begin s.ranges it v.chain f)
              (ground arith)))
      | inr h ↦ ground arith
    ]
  ]
