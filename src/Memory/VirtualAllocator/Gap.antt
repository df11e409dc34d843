-- ===== src/Memory/VirtualAllocator/Gap.antt =====
-- One gap of the search: the first aligned address in it, and whether the length fits there.
use ultra_os.Common.{
  ℕ, ◌+◌, ◌*◌, ◌%◌, ◌^◌, ◌≤◌, ◌<◌, ◌≡◌, ◌⊎◌, inl, inr, true, false, Bool, ◌||◌, ok, arith, ltb,
  Bool-cases, multiple_gap,
}
use ultra_os.Memory.Range.{Range, aligned_to, is_empty, length_of, set_length}
use ultra_os.Memory.Range.Bounds
use ultra_os.Memory.Range.Laws.{aligned_to_first}

-- The test that sends the search on.
abbrev pub too_small : ℕ → Range → Bool
too_small length potential = is_empty potential || ltb (length_of potential) length

-- `new` is `length` bytes at a multiple of the alignment, in the range from `lo` to `hi`.
pub record Fits (lo hi length alignment : ℕ) (new : Range) : Type 0 where
  pub aligned : new.begin % alignment ≡ 0
  pub size : new.end ≡ new.begin + length
  pub low : lo ≤ new.begin
  pub high : new.end ≤ hi

-- No multiple of the alignment has `length` bytes from it on between `lo` and `hi`.
abbrev pub NoFit : ℕ → ℕ → ℕ → ℕ → Type 0
NoFit lo hi length alignment = (k : ℕ) → lo ≤ k * alignment → k * alignment + length ≤ hi → ⊥

pub gap_fit :
    (gap : Range) (length alignment : ℕ)
    → Bounds.IsValid gap
    → 0 < length
    → 0 < alignment
    → alignment < 2 ^ 64
    → (c : Range) × (aligned_to gap alignment ≡ ok c)
      × (((too_small length c ≡ false)
            × Fits gap.begin gap.end length alignment (set_length length c))
          ⊎ ((too_small length c ≡ true) × NoFit gap.begin gap.end length alignment))
gap_fit gap length alignment v n h k =
    let (c, e, w, d) = aligned_to_first gap alignment v h k in
    (
      c,
      e,
      elim d [
        | inl first ↦ elim (Bool-cases (too_small length c)) [
          | inl small ↦ inr (
            small,
            λ j lo hi. absurd (ground (arith, w, multiple_gap alignment c.begin j h first.2)),
          )
          | inr fits ↦ inl (fits, ground (arith, w))
        ]
        | inr out ↦ inr (ground arith, λ j lo hi. out.1 j (omega arith))
      ],
    )
