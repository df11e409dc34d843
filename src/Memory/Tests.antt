-- ===== src/Memory/Tests.antt =====
-- Runs of the memory components, and their theorems at concrete states.
use ultra_os.Common.{
  ℕ, ◌+◌, ◌^◌, ◌<◌, ◌≤◌, ◌≡◌, ◌≢◌, refl, ◌⊎◌, ◌↔◌, true, false, List, [], ◌∷◌, ok, err, Perm,
  assertion, arith, some, none, All, Any, length, get_elem?,
}
use ultra_os.Memory.Page.{round_down}
use ultra_os.Memory.Range.{Range, overlaps, aligned_to, from_two_pointers}
use ultra_os.Memory.Range.Bounds
use ultra_os.Memory.BitArray.{find_bit, bit_at, with_size}
use ultra_os.Memory.BitArray.Bits
use ultra_os.Memory.BitArray.Find.{find_bit_complete}
use ultra_os.Memory.PhysicalRegion.{PhysicalRegion, allocate_page, free_page}
use ultra_os.Memory.PhysicalRegion.Pages
use ultra_os.Memory.PhysicalRegion.Pages.{IsFree, IsTaken, SameBut}
use ultra_os.Memory.PhysicalRegion.Allocate.{allocate_page_lem}
use ultra_os.Memory.PhysicalRegion.Free.{free_page_lem}
use ultra_os.Memory.MemoryMap.{
  PhysicalRange, RawRange, MemoryMap, shatter_against, emplace_range_at, erase_range_at,
  copy_aligned_from, align_physical, sort_by_address,
}
use ultra_os.Memory.MemoryMap.Shatter.{Shattered, shatter_against_strongest}
use ultra_os.Memory.MemoryMap.Align.{IsClean, FreePage, RawFreePage, copy_aligned_from_pages}
use ultra_os.Memory.MemoryMap.Sorted.{sort_by_address_lem}
use ultra_os.Memory.MemoryMap.Correct.{correct_overlapping_ranges}

abbrev range_of : ℕ → ℕ → Range
range_of begin end = record { begin = begin; end = end }

range_of-IsValid :
    (begin end : ℕ) → begin ≤ end → end < 2 ^ 64 → Bounds.IsValid (range_of begin end)
range_of-IsValid begin end h k = record { ordered = h; word = k }

abbrev size : ℕ
size = 5000

find_bit_complete_example :
    ((k : ℕ) × (find_bit false 2 (with_size 70) ≡ ok (some k))
      × (k < 70)
      × (bit_at k (with_size 70) ≡ false))
    ⊎ ((find_bit false 2 (with_size 70) ≡ ok none)
        × ((k : ℕ) → k < 70 → bit_at k (with_size 70) ≢ false))
unfolding with_size
find_bit_complete_example =
    find_bit_complete false 2 (with_size 70) (Bits.with_size-IsValid 70) (omega arith)

-- A region of two pages, the second of them free.
abbrev region : PhysicalRegion
region = record {
  range = range_of 8192 16384;
  free_pages = 1;
  allocation_map = Bits.updated 0 true (with_size 2);
  next_hint = 1;
}

region-IsValid : Pages.IsValid region
unfolding Bits.zeros bit_at with_size
region-IsValid = record {
  range_valid = range_of-IsValid 8192 16384 (omega arith) (omega arith);
  bits_valid = Bits.updated-IsValid 0 true (with_size 2) (Bits.with_size-IsValid 2) (omega arith);
  begin_aligned = omega arith;
  pages = omega arith;
  hint = λ _. omega arith;
  count = refl;
}

region-IsTaken : IsTaken region 8192
unfolding bit_at with_size
region-IsTaken = record { index = 0; index_lt = omega arith; address_eq = omega arith; bit = refl }

allocate_page_lem_example :
    ((region.free_pages ≡ 0)
      × (allocate_page region ≡ ok (none, region))
      × ((a : ℕ) → ¬ IsFree region a))
    ⊎ ((page : ℕ) × (r' : PhysicalRegion) × (allocate_page region ≡ ok (some page, r'))
        × IsFree region page
        × IsTaken r' page
        × SameBut page region r'
        × Pages.IsValid r'
        × (r'.free_pages + 1 ≡ region.free_pages))
allocate_page_lem_example = allocate_page_lem region region-IsValid

free_page_lem_example :
    (IsTaken region 8192
      → (r' : PhysicalRegion) × (free_page 8192 region ≡ ok r')
        × IsFree r' 8192
        × SameBut 8192 region r'
        × Pages.IsValid r'
        × (r'.free_pages ≡ region.free_pages + 1))
    × (IsFree region 8192 → free_page 8192 region ≡ err assertion)
    × (¬ IsFree region 8192 → ¬ IsTaken region 8192 → free_page 8192 region ≡ err assertion)
free_page_lem_example = free_page_lem region 8192 region-IsValid

abbrev physical : ℕ → ℕ → ℕ → PhysicalRange
physical begin end type = record { range = range_of begin end; type = type }

shatter_against_strongest_example :
    (x y z : PhysicalRange) × (shatter_against (physical 0 100 1) (physical 50 60 2) ≡ ok (x, y, z))
    × Shattered (physical 0 100 1) (physical 50 60 2) x y z
shatter_against_strongest_example =
    shatter_against_strongest (physical 0 100 1) (physical 50 60 2)
      (range_of-IsValid 0 100 (omega arith) (omega arith))
      (range_of-IsValid 50 60 (omega arith) (omega arith)) (omega arith)

-- A free entry that is not page-aligned, and a reserved one.
abbrev bios : List RawRange
bios =
    record { base_address = 100; length = 12288; type = 1 }
    ∷ record { base_address = 20000; length = 77; type = 2 }
    ∷ []

copy_aligned_from_pages_example :
    (m : MemoryMap) × (copy_aligned_from bios [] ≡ ok m)
    × All IsClean m
    × ((k : ℕ) → Any (FreePage k) m ↔ Any (RawFreePage k) bios)
copy_aligned_from_pages_example =
    copy_aligned_from_pages bios
      (record { no_wrap = omega arith }, (record { no_wrap = omega arith }, tt))

abbrev two_entries : MemoryMap
two_entries = physical 0 4096 1 ∷ physical 8192 12288 2 ∷ []

-- The second of three entries that overlap splits the first, and the piece after it then stands before
-- the third, which begins below it: the assertion of `shatter_against` fails.
three_way_overlap :
    correct_overlapping_ranges 10 0
      (physical 0 409600 1 ∷ physical 204800 245760 2 ∷ physical 225280 286720 5 ∷ [])
    ≡ some (err assertion)
unfolding correct_overlapping_ranges overlaps shatter_against align_physical aligned_to
    from_two_pointers emplace_range_at erase_range_at round_down
three_way_overlap = refl

abbrev unsorted : MemoryMap
unsorted = physical 8192 12288 2 ∷ physical 0 4096 1 ∷ []

sort_by_address_lem_example :
    Perm (sort_by_address unsorted) unsorted
    × ((i j : ℕ) (v w : PhysicalRange)
        → i < j
        → get_elem? (sort_by_address unsorted) i ≡ some v
        → get_elem? (sort_by_address unsorted) j ≡ some w
        → v.range.begin ≤ w.range.begin)
sort_by_address_lem_example = sort_by_address_lem unsorted
