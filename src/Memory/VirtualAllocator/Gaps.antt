-- ===== src/Memory/VirtualAllocator/Gaps.antt =====
-- The loop of `allocate` over the gaps between the allocated ranges.
use ultra_os.Common.{
  ℕ, ◌+◌, ◌*◌, ◌^◌, ◌≤◌, ◌<◌, ◌≡◌, refl, ◌⊎◌, inl, inr, false, List, [], ◌∷◌, Option, none, some,
  max, ok, arith, All, All-map,
}
use native.Mathlib.Decide.{dec_le}
use ultra_os.Memory.Range.{Range, is_empty, no_range, set_length}
use ultra_os.Memory.VirtualAllocator.{Search, search}
use ultra_os.Memory.VirtualAllocator.Invariant.{Chain, Covered, Chain-All}
use ultra_os.Memory.VirtualAllocator.Merge.{Beside, ElemOf}
use ultra_os.Memory.VirtualAllocator.Gap.{Fits, NoFit, gap_fit}

-- The last element of a list, or `prev` if there is none.
abbrev pub last_or : Option Range → List Range → Option Range
last_or prev [] = prev
last_or prev (r ∷ rs) = last_or (some r) rs

-- What the loop has found: a place in a gap, with the elements on both sides of the gap.
pub record Found (hi length alignment gap : ℕ) (prev : Option Range) (l : List Range) (f : Search)
    : Type 0 where
  pub fits : Fits gap hi length alignment f.allocated
  pub left : (f.range_before ≡ prev) ⊎ ((gap < f.allocated.begin) × ElemOf f.range_before l)
  pub right : ElemOf f.range_after l
  pub beside : All (Beside f.range_before f.range_after f.allocated) l

-- What it leaves when it has gone through all gaps: they are too small, and the last one is next.
pub record Missed (hi length alignment gap : ℕ) (prev : Option Range) (l : List Range) (f : Search)
    : Type 0 where
  pub bound : f.gap_begin ≤ hi
  pub none_found : f.allocated ≡ no_range
  pub no_after : f.range_after ≡ none
  pub is_last : f.range_before ≡ last_or prev l
  pub gap_of : ((f.gap_begin ≡ gap) × (f.range_before ≡ prev)) ⊎ (gap < f.gap_begin)
  pub ends :
      All (λ r. (r.end < f.gap_begin) ⊎ ((f.range_before ≡ some r) × (r.end ≡ f.gap_begin))) l
  pub blocked :
      (k : ℕ)
      → gap ≤ k * alignment
      → k * alignment < f.gap_begin
      → (a : ℕ) × (k * alignment ≤ a) × (a < k * alignment + length) × Covered a l

abbrev pub Outcome : ℕ → ℕ → ℕ → ℕ → Option Range → List Range → Search → Type 0
Outcome hi length alignment gap prev l f =
    ((is_empty f.allocated ≡ false) × Found hi length alignment gap prev l f)
    ⊎ Missed hi length alignment gap prev l f

pub ElemOf-cons : (o : Option Range) (r : Range) (l : List Range) → ElemOf o l → ElemOf o (r ∷ l)
ElemOf-cons none r l m = tt
ElemOf-cons (some x) r l m = inr m

ElemOf-head : (o : Option Range) (r : Range) (l : List Range) → o ≡ some r → ElemOf o (r ∷ l)
ElemOf-head o r l e = rw e (inl refl)

module _ (hi length alignment : ℕ) (n : 0 < length) (h : 0 < alignment) (k : alignment < 2 ^ 64)
    (w : hi < 2 ^ 64) where
  -- The gap in front of `r` is too small: the loop goes on behind `r`.
  step_on :
      (r : Range) (rs : List Range) (lo gap : ℕ) (prev : Option Range) (f : Search)
      → Chain lo hi (r ∷ rs)
      → gap ≤ lo
      → NoFit gap r.begin length alignment
      → Outcome hi length alignment r.end (some r) rs f
      → Outcome hi length alignment gap prev (r ∷ rs) f
  step_on r rs lo gap prev f c g small (inl (e, o)) = inl (
    e,
    record {
      fits = ground (arith, o.fits);
      left = inr (
        ground (arith, o.fits),
        elim o.left [
          | inl q ↦ ElemOf-head f.range_before r rs q
          | inr q ↦ ElemOf-cons f.range_before r rs q.1
        ],
      );
      right = ElemOf-cons f.range_after r rs o.right;
      beside = (ground (arith, o.fits, o.left), o.beside);
    },
  )
  step_on r rs lo gap prev f c g small (inr o) = inr (record {
    bound = o.bound;
    none_found = o.none_found;
    no_after = o.no_after;
    is_last = o.is_last;
    gap_of = inr (ground (arith, o.gap_of));
    ends = (ground (arith, o.gap_of), o.ends);
    blocked = λ j p q. elim (dec_le r.end (j * alignment)) [
      | yes beyond ↦ let (a, x, y, cov) = o.blocked j beyond q in (a, x, y, inr cov)
      | no inside ↦ (
        max (j * alignment) r.begin,
        omega arith,
        omega (arith, small j p),
        inl (omega (arith, c)),
      )
    ];
  })

  pub search-Outcome :
      (l : List Range) (lo gap : ℕ) (prev : Option Range)
      → Chain lo hi l
      → gap ≤ lo
      → gap ≤ hi
      → (f : Search) × (search length alignment l gap prev ≡ ok f)
        × Outcome hi length alignment gap prev l f
  unfolding search
  search-Outcome [] lo gap prev c g b = (
    record { allocated = no_range; range_before = prev; range_after = none; gap_begin = gap },
    refl,
    inr (record {
      bound = b;
      none_found = refl;
      no_after = refl;
      is_last = refl;
      gap_of = inl (refl, refl);
      ends = tt;
      blocked = λ j p q. absurd (omega arith);
    }),
  )
  search-Outcome (r ∷ rs) lo gap prev c g b =
      let (f, e, o) = search-Outcome rs (r.end + 1) r.end (some r) c.3 (omega arith) c.2 in
      let (p, q, d) =
        gap_fit (record { begin = gap; end = r.begin }) length alignment (omega (arith, c)) n h k in
      elim d [
        | inl (t, fits) ↦ (
          record {
            allocated = set_length length p;
            range_before = prev;
            range_after = some r;
            gap_begin = gap;
          },
          ground (arith, q),
          inl (
            ground (arith, fits),
            record {
              fits = ground (arith, fits, c);
              left = inl refl;
              right = inl refl;
              beside = (
                ground (arith, fits),
                All-map rs (λ x y. inl (inl (omega (arith, y, fits, c))))
                    (Chain-All (r.end + 1) hi rs c.3),
              );
            },
          ),
        )
        | inr (t, small) ↦ (f, ground (arith, q, e), step_on r rs lo gap prev f c g small o)
      ]
