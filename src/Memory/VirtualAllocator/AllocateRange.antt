-- ===== src/Memory/VirtualAllocator/AllocateRange.antt =====
-- `allocate(Range)`: what it does to a range that is free, and the overlap that it lets through.
use ultra_os.Common.{
  ℕ, ◌+◌, ◌-◌, ◌%◌, ◌^◌, ◌≤◌, ◌<◌, ◌≡◌, refl, subst, ◌∙◌, ◌⊎◌, ◌↔◌, inl, inr, true, false, ◌||◌,
  List, [], ◌∷◌, Option, none, some, ok, max, arith, All, Bool-cases, All-map, All-map₂, All-map₃,
  sub64,
}
use native.Mathlib.Decide.{dec_le}
use ultra_os.Memory.Page.{round_up, round_down, round_up_least, round_down_greatest}
use ultra_os.Memory.Range.{Range, overlaps}
use ultra_os.Memory.Range.Laws.{In}
use ultra_os.Memory.VirtualAllocator.{
  VirtualAllocator, allocate_range, place_range, page_range, neighbours, merge_and_emplace,
  any_contains, begins_at,
}
use ultra_os.Memory.VirtualAllocator.RangeSet.{is_nil, emplace, upper_bound, lower_bound, before}
use ultra_os.Memory.VirtualAllocator.Invariant.{Chain, Covered, Apart, Within, Chain-All, All-Elem}
use ultra_os.Memory.VirtualAllocator.Neighbours.{
  floor_from, neighbours-floor, floor_from-IsFloor, IsFloor, upper_bound-IsUpper, IsUpper,
}
use ultra_os.Memory.VirtualAllocator.Merge.{ElemOf, CanMerge, emplace-Adds, merge_and_emplace_lem}
use ultra_os.Memory.VirtualAllocator.Query.{Inv}

-- The pages of a range: what `allocate(Range)` hands out.
abbrev pub pages : Range → Range
pages r = record {
  begin = round_down r.begin;
  end = round_down r.begin + round_up (r.end - round_down r.begin);
}

abbrev pub Clear : Range → Range → Type 0
Clear p r = (r.end ≤ p.begin) ⊎ (p.end ≤ r.begin)

free→Clear :
    (lo hi : ℕ) (p : Range) (l : List Range)
    → All (Within lo hi) l
    → p.begin < p.end
    → ((a : ℕ) → In a p → ¬ Covered a l)
    → All (Clear p) l
free→Clear lo hi p [] w n f = tt
free→Clear lo hi p (r ∷ rs) w n f = (
  elim (dec_le r.end p.begin) [
    | yes x ↦ inl x
    | no x ↦ elim (dec_le p.end r.begin) [
      | yes y ↦ inr y
      | no y ↦ absurd (f (max p.begin r.begin) (omega arith) (inl (omega (arith, w))))
    ]
  ],
  free→Clear lo hi p rs w.1 n (λ a i c. f a i (inr c)),
)

-- A free range lies beside the two neighbours that the iterators stop at.
module _ (lo hi : ℕ) (l : List Range) (p : Range) (c : Chain lo hi l) (n : p.begin < p.end)
    (f : All (Clear p) l) where
  floor_beside :
      (it : Option Range)
      → IsFloor none l p.begin it
      → ElemOf it l
        × All (λ r. (r.end < p.begin) ⊎ (p.end ≤ r.begin) ⊎ ((it ≡ some r) × (r.end ≡ p.begin))) l
  floor_beside it (inl (e, g)) =
      (rw e tt, All-map₃ l (λ r x y z. ground (arith, x, y, z)) f g (Chain-All lo hi l c))
  floor_beside it (inr (q, e, m, b, g)) =
      (rw e m, All-map₃ l (λ r x y z. ground (arith, x, y, z)) f g (Chain-All lo hi l c))

  upper_beside :
      (after : Option Range)
      → IsUpper l p.begin after
      → ElemOf after l
        × All
            (λ r.
              (r.begin ≤ p.begin)
              ⊎ (p.end < r.begin)
              ⊎ ((after ≡ some r) × (p.end ≡ r.begin))
              ⊎ (r.end ≤ p.begin))
            l
  upper_beside after (inl (e, g)) = (rw e tt, All-map l (λ r x. inl x) g)
  upper_beside after (inr (q, e, m, b, g)) =
      let u = All-Elem (Clear p) q l m f in
      let w = All-Elem (Within lo hi) q l m (Chain-All lo hi l c) in
      (rw e m, All-map₂ l (λ r x y. ground (arith, x, y, u, w)) f g)

  clear_CanMerge :
      Within lo hi p
      → (it after : Option Range) → IsFloor none l p.begin it
      → IsUpper l p.begin after
      → CanMerge lo hi l it after p
  clear_CanMerge w it after x y =
      let u = floor_beside it x in
      let v = upper_beside after y in
      record {
        chain = c;
        within = w;
        prev_in = u.0;
        next_in = v.0;
        beside = All-map₃ l (λ r i j z. ground (arith, i, j, z)) u.1 v.1 (Chain-All lo hi l c);
      }

-- The two guards of `allocate(Range)` pass where the neighbours are beside the range.
guards_pass :
    (lo hi : ℕ) (l : List Range) (p : Range) (it after : Option Range)
    → Chain lo hi l
    → p.begin < p.end
    → p.end < 2 ^ 64
    → All (Clear p) l
    → ElemOf it l
    → ElemOf after l
    → (any_contains after (sub64 p.end 1) ≡ false)
      × ((begins_at it p.begin || any_contains it p.begin) ≡ false)
guards_pass lo hi l p it after c n w f m k = (after_passes after k, it_passes it m)
  where
    after_passes : (o : Option Range) → ElemOf o l → any_contains o (sub64 p.end 1) ≡ false
    after_passes none k = refl
    after_passes (some r) k =
        ground
          (arith, All-Elem (Clear p) r l k f, All-Elem (Within lo hi) r l k (Chain-All lo hi l c))

    it_passes :
        (o : Option Range) → ElemOf o l → (begins_at o p.begin || any_contains o p.begin) ≡ false
    it_passes none k = refl
    it_passes (some r) k =
        ground
          (arith, All-Elem (Clear p) r l k f, All-Elem (Within lo hi) r l k (Chain-All lo hi l c))

-- What `allocate(Range)` is asked for: a range that is not empty, in a page-aligned base range.
pub record Request (s : VirtualAllocator) (r : Range) : Type 0 where
  pub nonempty : r.begin < r.end
  pub low : s.base.begin ≤ r.begin
  pub high : r.end ≤ s.base.end
  pub base_begin : s.base.begin % 4096 ≡ 0
  pub base_end : s.base.end % 4096 ≡ 0

All-nil : (P : Range → Type 0) (l : List Range) → is_nil l ≡ true → All P l
All-nil P [] e = tt
All-nil P (r ∷ rs) e = absurd (ground arith)

module _ (s : VirtualAllocator) (r : Range) (v : Inv s) (q : Request s r) where
  pages-Within : Within s.base.begin s.base.end (pages r)
  pages-Within =
      let down = round_down_greatest r.begin in
      let up = round_up_least (r.end - round_down r.begin) (omega (arith, v.base_valid.word, q)) in
      omega (arith, down, up, q)

  page_range_lem : page_range r ≡ ok (pages r)
  unfolding page_range
  page_range_lem = ground (arith, round_down_greatest r.begin, pages-Within)

  to_place_range : allocate_range s r ≡ place_range s (pages r)
  unfolding allocate_range
  to_place_range = ground (arith, page_range_lem)

-- A request whose pages are free is granted: the result is the range of those pages, the invariant
-- holds afterwards, and exactly the addresses of the pages are allocated in addition.
pub allocate_range_free :
    (s : VirtualAllocator) (r : Range)
    → Inv s
    → Request s r
    → ((a : ℕ) → In a (pages r) → ¬ Covered a s.ranges)
    → (s' : VirtualAllocator) × (allocate_range s r ≡ ok (s', pages r))
      × Inv s'
      × ((a : ℕ) → Covered a s'.ranges ↔ (In a (pages r) ⊎ Covered a s.ranges))
unfolding place_range
allocate_range_free s r v q f =
    let p = pages r in
    let w = pages-Within s r v q in
    let clear =
      free→Clear s.base.begin s.base.end p s.ranges (Chain-All _ _ s.ranges v.chain) w.1 f in
    let it = floor_from none s.ranges p.begin in
    let after = upper_bound s.ranges p.begin in
    let m =
      clear_CanMerge s.base.begin s.base.end s.ranges p v.chain w.1 clear w it after
        (floor_from-IsFloor none s.base.begin s.base.end p.begin s.ranges v.chain)
        (upper_bound-IsUpper s.base.begin s.base.end p.begin s.ranges v.chain) in
    let g =
      guards_pass s.base.begin s.base.end s.ranges p it after v.chain w.1 (omega (arith, w)) clear
        m.prev_in m.next_in in
    let (l, e, a) = merge_and_emplace_lem s.base.begin s.base.end s.ranges it after p m in
    let near = neighbours-floor s.base.begin s.base.end p.begin s.ranges v.chain in
    elim (Bool-cases (is_nil s.ranges)) [
      | inl empty ↦
          let b =
            emplace-Adds s.base.begin s.base.end s.ranges p v.chain w
              (All-nil (Apart p) s.ranges empty) in
          (
            record s { ranges = emplace p s.ranges },
            to_place_range s r v q ∙ rw empty,
            record { base_valid = v.base_valid; chain = b.0 },
            b.1,
          )
      | inr full ↦ (
        record s { ranges = l },
        to_place_range s r v q ∙ rw (full, near, g.0, g.1, e),
        record { base_valid = v.base_valid; chain = a.0 },
        a.1,
      )
    ]

-- The check for an overlap looks only at the last byte of the request and at the byte it begins at:
-- a request that begins below the first allocated range and ends above it passes, and the pages
-- that it is given overlap that range.
pub allocate_range_overlap :
    (s : VirtualAllocator) (r first : Range) (rest : List Range)
    → Inv s
    → Request s r
    → s.ranges ≡ first ∷ rest
    → (pages r).begin < first.begin
    → first.end < (pages r).end
    → (s' : VirtualAllocator) × (allocate_range s r ≡ ok (s', pages r))
      × (overlaps (pages r) first ≡ true)
      × ((a : ℕ) → In a first → In a (pages r) × Covered a s.ranges)
unfolding place_range neighbours lower_bound before merge_and_emplace overlaps
allocate_range_overlap s r first rest v q e lo hi =
    let p = pages r in
    let w = pages-Within s r v q in
    let c : Chain s.base.begin s.base.end (first ∷ rest) =
      subst (Chain s.base.begin s.base.end) e v.chain in
    (
      record s { ranges = emplace p s.ranges },
      to_place_range s r v q ∙ rw e (ground (arith, w, c, v.base_valid.word)),
      ground (arith, w, c),
      λ a i. (omega (arith, i), rw e (inl i)),
    )
