-- ===== src/Memory/MemoryMap/Sorted.antt =====
-- `MemoryMap::sort_by_address`.
use ultra_os.Common.{ℕ, ◌≤◌, ◌<◌, ◌≡◌, some, get_elem?, Perm, arith}
use ultra_os.Memory.MemoryMap.{PhysicalRange, MemoryMap, is_before, sort_by_address}
use ultra_os.Utilities.{insertion_sort}
use ultra_os.Utilities.Search.{get_elem?-lt}
use ultra_os.Utilities.Sort.{IsOrder, insertion_sort_lem, length-insertion_sort}

is_before-IsOrder : IsOrder is_before
is_before-IsOrder = record {
  one_way = λ v w h. ground (arith, h);
  chain = λ v w x h k. ground (arith, h, k);
}

-- Sorting the map keeps its entries, each as often as before, and of two entries of the result the one
-- that stands ahead does not begin after the other.
pub sort_by_address_lem :
    (m : MemoryMap)
    → Perm (sort_by_address m) m
      × ((i j : ℕ) (v w : PhysicalRange)
          → i < j
          → get_elem? (sort_by_address m) i ≡ some v
          → get_elem? (sort_by_address m) j ≡ some w
          → v.range.begin ≤ w.range.begin)
unfolding sort_by_address
sort_by_address_lem m =
    let (sorted, perm) = insertion_sort_lem is_before m is_before-IsOrder in
    (
      perm,
      λ i j v w l ev ew. ground (
        arith,
        sorted i j v w l
            (omega (
              arith,
              get_elem?-lt (insertion_sort is_before m) j w ew,
              length-insertion_sort is_before m is_before-IsOrder,
            ))
            ev ew,
      ),
    )
