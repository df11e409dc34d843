-- ===== src/Memory/VirtualAllocator/Allocate.antt =====
-- `allocate(size_t, size_t)`: first fit is sound, and it panics only when nothing fits.
use ultra_os.Common.{
  ℕ, ◌+◌, ◌*◌, ◌%◌, ◌^◌, ◌≤◌, ◌<◌, ◌≡◌, refl, sym, ap, ◌∙◌, ◌⊎◌, ◌↔◌, inl, inr, false, List, [],
  ◌∷◌, Option, none, some, ok, err, panic, arith, ltb, if◌then◌else◌, All, All-map,
}
use native.Mathlib.Decide.{dec_lt}
use ultra_os.Memory.Page.{page_size, round_up, round_up_least}
use ultra_os.Memory.Range.{Range, is_empty, set_length}
use ultra_os.Memory.Range.Laws.{In}
use ultra_os.Memory.VirtualAllocator.{
  VirtualAllocator, Search, take_potential, search_last, merge_and_emplace, allocate_rounded,
  allocate,
}
use ultra_os.Memory.VirtualAllocator.RangeSet.{last_of, is_nil, emplace}
use ultra_os.Memory.VirtualAllocator.Invariant.{Covered}
use ultra_os.Memory.VirtualAllocator.Merge.{Beside, ElemOf, emplace-Adds, merge_and_emplace_lem}
use ultra_os.Memory.VirtualAllocator.Query.{Inv}
use ultra_os.Memory.VirtualAllocator.Gap.{Fits, gap_fit}
use ultra_os.Memory.VirtualAllocator.Gaps.{Missed, search-Outcome, last_or, ElemOf-cons}

-- The request was served: `r` is a free place of the right size and alignment in the base range,
-- and afterwards exactly its addresses are allocated in addition.
pub record Placed (s : VirtualAllocator) (length alignment : ℕ) (s' : VirtualAllocator) (r : Range)
    : Type 0 where
  pub inv : Inv s'
  pub fits : Fits s.base.begin s.base.end length alignment r
  pub free : (a : ℕ) → In a r → ¬ Covered a s.ranges
  pub adds : (a : ℕ) → Covered a s'.ranges ↔ (In a r ⊎ Covered a s.ranges)

-- Every aligned place of that size in the base range holds an address that is allocated.
abbrev pub Full : VirtualAllocator → ℕ → ℕ → Type 0
Full s length alignment =
    (k : ℕ)
    → s.base.begin ≤ k * alignment
    → k * alignment + length ≤ s.base.end
    → (a : ℕ) × (k * alignment ≤ a) × (a < k * alignment + length) × Covered a s.ranges

Beside-free :
    (prev next : Option Range) (new : Range) (a : ℕ) (l : List Range)
    → All (Beside prev next new) l
    → In a new
    → ¬ Covered a l
Beside-free prev next new a [] f i c = c
Beside-free prev next new a (r ∷ rs) f i (inl j) = ground arith
Beside-free prev next new a (r ∷ rs) f i (inr c) = Beside-free prev next new a rs f.1 i c

last_of-last_or :
    (prev : Option Range) (r : Range) (rs : List Range) → last_of (r ∷ rs) ≡ last_or prev (r ∷ rs)
unfolding last_of
last_of-last_or prev r [] = refl
last_of-last_or prev r (s ∷ rs) = last_of-last_or (some r) s rs

last_of-ElemOf : (r : Range) (rs : List Range) → ElemOf (last_of (r ∷ rs)) (r ∷ rs)
unfolding last_of
last_of-ElemOf r [] = inl refl
last_of-ElemOf r (s ∷ rs) = ElemOf-cons (last_of (s ∷ rs)) r (s ∷ rs) (last_of-ElemOf s rs)

module _ (s : VirtualAllocator) (length alignment : ℕ) (v : Inv s) (n : 0 < length)
    (h : 0 < alignment) (k : alignment < 2 ^ 64) where
  -- The list of ranges is merged with a place that was found.
  place :
      (f : Search)
      → Fits s.base.begin s.base.end length alignment f.allocated
      → ElemOf f.range_before s.ranges
      → ElemOf f.range_after s.ranges
      → All (Beside f.range_before f.range_after f.allocated) s.ranges
      → (l : List Range) × (merge_and_emplace s.ranges f.range_before f.range_after f.allocated
          ≡ ok l)
        × Placed s length alignment (record s { ranges = l }) f.allocated
  place f fits p q b =
      let (l, e, a) =
        merge_and_emplace_lem s.base.begin s.base.end s.ranges f.range_before f.range_after
          f.allocated
          (record {
            chain = v.chain;
            within = ground (arith, fits);
            prev_in = p;
            next_in = q;
            beside = b;
          }) in
      (
        l,
        e,
        record {
          inv = record { base_valid = v.base_valid; chain = a.0 };
          fits = fits;
          free = λ x i. Beside-free f.range_before f.range_after f.allocated x s.ranges b i;
          adds = a.1;
        },
      )

  abbrev Served : Type 0
  Served =
      ((s' : VirtualAllocator) × (r : Range) × (allocate_rounded s length alignment ≡ ok (s', r))
        × Placed s length alignment s' r)
      ⊎ ((allocate_rounded s length alignment ≡ err panic) × Full s length alignment)

  serve_empty : s.ranges ≡ [] → Served
  unfolding allocate_rounded take_potential
  serve_empty e =
      let (p, q, d) = gap_fit s.base length alignment v.base_valid n h k in
      elim d [
        | inl (t, fits) ↦
            let new = set_length length p in
            let a =
              emplace-Adds s.base.begin s.base.end s.ranges new v.chain (ground (arith, fits))
                (rw e tt) in
            inl (
              record s { ranges = emplace new s.ranges },
              new,
              rw (e, q, t),
              record {
                inv = record { base_valid = v.base_valid; chain = a.0 };
                fits = fits;
                free = λ x i. rw e (λ c. c);
                adds = a.1;
              },
            )
        | inr (t, small) ↦ inr (rw (e, q, t), λ j lo hi. absurd (small j lo hi))
      ]

  found_last : (f : Search) → is_empty f.allocated ≡ false → search_last s length alignment f ≡ ok f
  unfolding search_last
  found_last f ne = rw ne

  -- What the last gap adds to a search that has missed so far.
  last_gap :
      (f : Search)
      → Missed s.base.end length alignment s.base.begin none s.ranges f
      → last_of s.ranges ≡ f.range_before
      → ElemOf (last_of s.ranges) s.ranges
      → ((g : Search) × (search_last s length alignment f ≡ ok g)
          × Fits s.base.begin s.base.end length alignment g.allocated
          × ElemOf g.range_before s.ranges
          × ElemOf g.range_after s.ranges
          × All (Beside g.range_before g.range_after g.allocated) s.ranges)
        ⊎ ((search_last s length alignment f ≡ err panic) × Full s length alignment)
  unfolding search_last
  last_gap f missed e m =
      let gap : Range = record { begin = f.gap_begin; end = s.base.end } in
      let (c, q, d) =
        gap_fit gap length alignment (omega (arith, missed.bound, v.base_valid.word)) n h k in
      elim d [
        | inl (t, fits) ↦ inl (
          record f { allocated = set_length length c; range_before = last_of s.ranges },
          ground (arith, missed.none_found, missed.bound, q),
          ground (arith, fits, missed.gap_of),
          m,
          rw missed.no_after tt,
          All-map s.ranges (λ r x. ground (arith, x, fits, e)) missed.ends,
        )
        | inr (t, small) ↦ inr (
          ground (arith, missed.none_found, missed.bound, q),
          λ j lo hi. elim (dec_lt (j * alignment) f.gap_begin) [
            | yes p ↦ missed.blocked j lo p
            | no p ↦ absurd (small j (omega arith) hi)
          ],
        )
      ]

  serve :
      is_nil s.ranges ≡ false
      → ElemOf (last_of s.ranges) s.ranges
      → last_of s.ranges ≡ last_or none s.ranges
      → Served
  unfolding allocate_rounded
  serve e m z =
      let (f, q, o) =
        search-Outcome s.base.end length alignment n h k v.base_valid.word s.ranges s.base.begin
          s.base.begin none v.chain (omega arith) v.base_valid.ordered in
      elim o [
        | inl (ne, found) ↦
            let (l, w, p) =
              place f found.fits (elim found.left [ inl x ↦ rw x tt | inr x ↦ x.1 ]) found.right
                found.beside in
            inl (record s { ranges = l }, f.allocated, rw (e, q, found_last f ne, w), p)
        | inr missed ↦ elim (last_gap f missed (z ∙ sym missed.is_last) m) [
          | inl (g, x, fits, a, b, c) ↦
              let (l, w, p) = place g fits a b c in
              inl (record s { ranges = l }, g.allocated, rw (e, q, x, w), p)
          | inr (x, full) ↦ inr (rw (e, q, x), full)
        ]
      ]

  pub allocate_rounded_lem :
      ((s' : VirtualAllocator) × (r : Range) × (allocate_rounded s length alignment ≡ ok (s', r))
        × Placed s length alignment s' r)
      ⊎ ((allocate_rounded s length alignment ≡ err panic) × Full s length alignment)
  allocate_rounded_lem = by_ranges s.ranges refl
    where
      by_ranges : (l : List Range) → s.ranges ≡ l → Served
      by_ranges [] e = serve_empty e
      by_ranges (r ∷ rs) e =
          serve (ap is_nil e) (rw e (last_of-ElemOf r rs)) (rw e (last_of-last_or none r rs))

-- The alignment that `allocate` works with.
abbrev pub granule : ℕ → ℕ
granule alignment = if ltb alignment page_size then page_size else alignment

-- On a request of at least one byte, whose rounded length is a word, and an alignment that is below
-- a page or a multiple of it, `allocate` ends in one of two ways and never by an assertion. Either
-- it hands out a place of the rounded length, aligned and inside the base range, in which no
-- address was allocated; the invariant holds afterwards, and the allocated addresses are the old
-- ones and those of the place. Or it panics, and then every aligned place of that length in the
-- base range holds an allocated address.
pub allocate_first_fit :
    (s : VirtualAllocator) (length alignment : ℕ)
    → Inv s
    → 0 < length
    → length + 4096 ≤ 2 ^ 64
    → alignment < 2 ^ 64
    → granule alignment % 4096 ≡ 0
    → ((s' : VirtualAllocator) × (r : Range) × (allocate s length alignment ≡ ok (s', r))
        × Placed s (round_up length) (granule alignment) s' r)
      ⊎ ((allocate s length alignment ≡ err panic) × Full s (round_up length) (granule alignment))
unfolding allocate
allocate_first_fit s length alignment v n h k al =
    let up = round_up_least length h in
    elim (allocate_rounded_lem s (round_up length) (granule alignment) v (omega (arith, up))
      (ground arith) (ground arith)) [
        | inl (s', r, e, p) ↦ inl (s', r, ground (arith, up, e), p)
        | inr (e, full) ↦ inr (ground (arith, up, e), full)
      ]
