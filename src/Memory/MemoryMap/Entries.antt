-- ===== src/Memory/MemoryMap/Entries.antt =====
-- The map as a sequence of entries: storing an entry and erasing it.
use ultra_os.Common.{
  ℕ, zero, suc, ◌+◌, ◌≤◌, ◌<◌, ◌≡◌, refl, ap, [], ◌∷◌, length, get_elem?, ok, err, assertion, some,
  arith,
}
use native.Mathlib.Decide.{ℕ_discrete}
use ultra_os.Memory.MemoryMap.{
  PhysicalRange, MemoryMap, emplace_range_at, erase_range_at, insert_at, remove_at, emplace_range,
}

length-insert_at :
    (i : ℕ) (r : PhysicalRange) (m : MemoryMap) → length (insert_at i r m) ≡ length m + 1
unfolding insert_at
length-insert_at zero r m = omega arith
length-insert_at (suc i) r [] = refl
length-insert_at (suc i) r (e ∷ m) = omega (arith, length-insert_at i r m)

remove_at-insert_at :
    (i : ℕ) (r : PhysicalRange) (m : MemoryMap) → i ≤ length m → remove_at i (insert_at i r m) ≡ m
unfolding insert_at remove_at
remove_at-insert_at zero r m h = refl
remove_at-insert_at (suc i) r [] h = absurd (omega arith)
remove_at-insert_at (suc i) r (e ∷ m) h = ap (◌∷◌ e) (remove_at-insert_at i r m (omega arith))

get_elem?-insert_at :
    (i : ℕ) (r : PhysicalRange) (m : MemoryMap)
    → i ≤ length m
    → get_elem? (insert_at i r m) i ≡ some r
unfolding insert_at
get_elem?-insert_at zero r m h = refl
get_elem?-insert_at (suc i) r [] h = absurd (omega arith)
get_elem?-insert_at (suc i) r (e ∷ m) h = get_elem?-insert_at i r m (omega arith)

insert_at-length :
    (r : PhysicalRange) (m : MemoryMap) → insert_at (length m) r m ≡ emplace_range r m
unfolding insert_at
insert_at-length r [] = refl
insert_at-length r (e ∷ m) = ap (◌∷◌ e) (insert_at-length r m)

stored :
    (i : ℕ) (r : PhysicalRange) (m : MemoryMap)
    → i ≤ length m
    → emplace_range_at i r m ≡ ok (insert_at i r m)
unfolding emplace_range_at
stored i r m h = elim (ℕ_discrete i (length m)) [
  | yes e ↦ ground (arith, ap (λ k. insert_at k r m) e, insert_at-length r m)
  | no ne ↦ ground arith
]

erased :
    (i : ℕ) (r : PhysicalRange) (m : MemoryMap)
    → i ≤ length m
    → erase_range_at i (insert_at i r m) ≡ ok m
unfolding erase_range_at
erased i r m h = ground (arith, length-insert_at i r m, remove_at-insert_at i r m h)

-- Storing an entry at an index within the map goes through, puts it there, and makes the map
-- one longer; erasing at that index gives back the map as it was. An index past the end asserts.
pub emplace_range_at-erase_range_at :
    (i : ℕ) (r : PhysicalRange) (m : MemoryMap)
    → (i ≤ length m
        → (m' : MemoryMap) × (emplace_range_at i r m ≡ ok m')
          × (get_elem? m' i ≡ some r)
          × (length m' ≡ length m + 1)
          × (erase_range_at i m' ≡ ok m))
      × (length m < i → emplace_range_at i r m ≡ err assertion)
unfolding emplace_range_at erase_range_at
emplace_range_at-erase_range_at i r m = (
  λ h. (
    insert_at i r m,
    stored i r m h,
    get_elem?-insert_at i r m h,
    length-insert_at i r m,
    erased i r m h,
  ),
  λ h. ground arith,
)
