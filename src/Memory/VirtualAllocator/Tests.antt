-- ===== src/Memory/VirtualAllocator/Tests.antt =====
-- Runs of the virtual allocator, and its theorems at concrete states.
use ultra_os.Common.{ℕ, ◌≡◌, refl, ◌⊎◌, ◌↔◌, inl, inr, true, [], ◌∷◌, ok, err, panic, arith}
use ultra_os.Memory.Page.{round_up, round_down}
use ultra_os.Memory.Range.{Range, overlaps}
use ultra_os.Memory.Range.Laws.{In}
use ultra_os.Memory.VirtualAllocator.{
  VirtualAllocator, is_allocated, allocate, allocate_range, deallocate,
}
use ultra_os.Memory.VirtualAllocator.Invariant.{Covered}
use ultra_os.Memory.VirtualAllocator.Query.{Inv, is_allocated_iff}
use ultra_os.Memory.VirtualAllocator.Deallocate.{deallocate_allocated, deallocate_unallocated}
use ultra_os.Memory.VirtualAllocator.Allocate.{Placed, Full, granule, allocate_first_fit}
use ultra_os.Memory.VirtualAllocator.AllocateRange.{
  pages, Request, allocate_range_free, allocate_range_overlap,
}

abbrev range_of : ℕ → ℕ → Range
range_of begin end = record { begin = begin; end = end }

-- Pages 2 and 3 of a megabyte are taken.
abbrev one_range : VirtualAllocator
one_range = record { base = range_of 4096 1048576; ranges = range_of 8192 16384 ∷ [] }

one_range-Inv : Inv one_range
one_range-Inv = record {
  base_valid = record { ordered = omega arith; word = omega arith };
  chain = (omega arith, omega arith, omega arith, tt);
}

allocate_first_fit_example :
    ((s' : VirtualAllocator) × (r : Range) × (allocate one_range 5000 16 ≡ ok (s', r))
      × Placed one_range (round_up 5000) (granule 16) s' r)
    ⊎ ((allocate one_range 5000 16 ≡ err panic) × Full one_range (round_up 5000) (granule 16))
allocate_first_fit_example =
    allocate_first_fit one_range 5000 16 one_range-Inv (omega arith) (omega arith) (omega arith)
      (omega arith)

deallocate_allocated_example :
    (s' : VirtualAllocator) × (deallocate one_range (range_of 8192 12288) ≡ ok s')
    × Inv s'
    × ((a : ℕ) → Covered a s'.ranges ↔ (Covered a one_range.ranges × ¬ In a (range_of 8192 12288)))
deallocate_allocated_example =
    deallocate_allocated one_range (range_of 8192 12288) one_range-Inv
      (record { ordered = omega arith; word = omega arith }) (omega arith) (omega arith)
      (omega arith) (λ a i. inl (omega (arith, i)))

deallocate_unallocated_example : deallocate one_range (range_of 12288 20480) ≡ err panic
deallocate_unallocated_example =
    deallocate_unallocated one_range (range_of 12288 20480) one_range-Inv
      (record { ordered = omega arith; word = omega arith }) (omega arith) (omega arith)
      (omega arith) 16384 (omega arith) (λ c. elim c [ inl i ↦ omega (arith, i) | inr n ↦ n ])

is_allocated_iff_example : (is_allocated one_range 9000 ≡ true) ↔ Covered 9000 one_range.ranges
is_allocated_iff_example = is_allocated_iff one_range 9000 one_range-Inv

free-Request : Request one_range (range_of 20000 21000)
free-Request = record {
  nonempty = omega arith;
  low = omega arith;
  high = omega arith;
  base_begin = omega arith;
  base_end = omega arith;
}

allocate_range_free_example :
    (s' : VirtualAllocator) × (allocate_range one_range (range_of 20000 21000)
      ≡ ok (s', pages (range_of 20000 21000)))
    × Inv s'
    × ((a : ℕ)
        → Covered a s'.ranges ↔ (In a (pages (range_of 20000 21000)) ⊎ Covered a one_range.ranges))
unfolding round_down round_up
allocate_range_free_example =
    allocate_range_free one_range (range_of 20000 21000) one_range-Inv free-Request
      (λ a i c. elim c [ inl j ↦ omega (arith, i, j) | inr n ↦ n ])

-- The request covers the allocated pages, with a page on either side.
covering-Request : Request one_range (range_of 4096 20480)
covering-Request = record {
  nonempty = omega arith;
  low = omega arith;
  high = omega arith;
  base_begin = omega arith;
  base_end = omega arith;
}

allocate_range_overlap_example :
    (s' : VirtualAllocator) × (allocate_range one_range (range_of 4096 20480)
      ≡ ok (s', pages (range_of 4096 20480)))
    × (overlaps (pages (range_of 4096 20480)) (range_of 8192 16384) ≡ true)
    × ((a : ℕ)
        → In a (range_of 8192 16384)
        → In a (pages (range_of 4096 20480)) × Covered a one_range.ranges)
unfolding round_down round_up
allocate_range_overlap_example =
    allocate_range_overlap one_range (range_of 4096 20480) (range_of 8192 16384) [] one_range-Inv
      covering-Request refl (omega arith) (omega arith)
