-- ===== src/Memory/MemoryMap.antt =====
-- Kernel/Memory/MemoryMap.{h,cpp}: the map of physical memory, built from what the BIOS reports. The
-- entries are a list; the warnings past the reserved capacity, which are only logged, are left out.
pub mod Shatter
pub mod Entries
pub mod Align
pub mod Correct
pub mod Sorted
use ultra_os.Common.{
  ℕ, zero, suc, ◌+◌, ◌-◌, ◌<◌, Bool, true, false, not, ◌&&◌, ◌||◌, ltb, leb, ◌==◌, if◌then◌else◌,
  List, [], ◌∷◌, ◌++◌, Option, none, some, length, Result, Fault, assertion, panic, guard, ok, err,
  ◌>>=◌, ◌>>◌,
}
use ultra_os.Utilities.{insertion_sort}
use ultra_os.Memory.Page.{page_size, round_down}
use ultra_os.Memory.Range.{
  Range, no_range, make, from_two_pointers, length_of, set_length, is_empty, contains_address,
  overlaps, aligned_to,
}

-- The values of `Type` that the code compares with; the others come from the BIOS or the loader.
abbrev pub free_type : ℕ
free_type = 1

abbrev pub reserved_type : ℕ
reserved_type = 2

pub record PhysicalRange : Type 0 where
  pub range : Range
  pub type : ℕ

abbrev pub no_physical_range : PhysicalRange
no_physical_range = record { range = no_range; type = reserved_type }

abbrev pub is_free : PhysicalRange → Bool
is_free r = r.type == free_type

abbrev pub is_reserved : PhysicalRange → Bool
is_reserved r = not (is_free r)

unfoldable pub align_physical : PhysicalRange → ℕ → Result Fault PhysicalRange
align_physical r alignment = do
  new_range ← aligned_to r.range alignment
  ok (record { range = new_range; type = r.type })

-- `set_end` and `set_begin`.
abbrev pub set_end : ℕ → PhysicalRange → PhysicalRange
set_end end r = record { range = record { begin = r.range.begin; end = end }; type = r.type }

abbrev pub set_begin : ℕ → PhysicalRange → PhysicalRange
set_begin begin r = record { range = record { begin = begin; end = r.range.end }; type = r.type }

-- `ranges[2]` before the types are compared.
abbrev after_other : PhysicalRange → PhysicalRange → Result Fault PhysicalRange
after_other r other =
    if leb other.range.end r.range.end
    then (do
      rest ← from_two_pointers other.range.end r.range.end
      ok (record { range = rest; type = r.type }))
    else ok no_physical_range

unfoldable pub shatter_against :
    PhysicalRange → PhysicalRange → Result Fault (PhysicalRange × PhysicalRange × PhysicalRange)
unfolding from_two_pointers
shatter_against r other = do
  guard (contains_address r.range other.range.begin) assertion
  (if r.type == other.type
      then ok (
        set_end (if ltb other.range.end r.range.end then r.range.end else other.range.end) r,
        no_physical_range,
        no_physical_range,
      )
      else (do
        rest ← after_other r other
        (if ltb other.type r.type
            then (if leb r.range.end other.range.end
                then ok (r, set_begin r.range.end other, rest)
                else ok (r, no_physical_range, no_physical_range))
            else ok (set_end other.range.begin r, other, rest))))

-- The entry of `E820MemoryMap`.
pub record RawRange : Type 0 where
  pub base_address : ℕ
  pub length : ℕ
  pub type : ℕ

abbrev pub MemoryMap : Type 0
MemoryMap = List PhysicalRange

abbrev pub emplace_range : PhysicalRange → MemoryMap → MemoryMap
emplace_range r m = m ++ r ∷ []

-- What the move of the entries from `index` on, and the store, do.
unfoldable pub insert_at : ℕ → PhysicalRange → MemoryMap → MemoryMap
insert_at zero r m = r ∷ m
insert_at (suc index) r [] = r ∷ []
insert_at (suc index) r (e ∷ m) = e ∷ insert_at index r m

unfoldable pub emplace_range_at : ℕ → PhysicalRange → MemoryMap → Result Fault MemoryMap
unfolding insert_at
emplace_range_at index r m = do
  guard (leb index (length m)) assertion
  ok (if index == length m then emplace_range r m else insert_at index r m)

unfoldable pub remove_at : ℕ → MemoryMap → MemoryMap
remove_at index [] = []
remove_at zero (e ∷ m) = m
remove_at (suc index) (e ∷ m) = e ∷ remove_at index m

-- Dropping the last entry, and the move over the erased one.
unfoldable pub erase_range_at : ℕ → MemoryMap → Result Fault MemoryMap
unfolding remove_at
erase_range_at index m = do guard (ltb index (length m)) assertion; ok (remove_at index m)

-- What the loop of `copy_aligned_from` does with one entry.
unfoldable pub copy_entry : RawRange → MemoryMap → Result Fault MemoryMap
copy_entry dirty_entry m = do
  range ← make dirty_entry.base_address dirty_entry.length
  let new_range : PhysicalRange = record { range = range; type = dirty_entry.type }
  (if not (new_range.type == free_type) then ok (emplace_range new_range m) else (do
    aligned ← align_physical new_range page_size
    (if is_empty aligned.range || ltb (length_of aligned.range) page_size
        then ok m
        else ok (
            emplace_range
              (record {
                range = set_length (round_down (length_of aligned.range)) aligned.range;
                type = aligned.type;
              })
              m))))

unfoldable pub copy_aligned_from : List RawRange → MemoryMap → Result Fault MemoryMap
copy_aligned_from [] m = ok m
copy_aligned_from (dirty_entry ∷ e820) m = do
  m' ← copy_entry dirty_entry m
  copy_aligned_from e820 m'

-- `operator<` of the entries.
abbrev pub is_before : PhysicalRange → PhysicalRange → Bool
is_before l r = ltb l.range.begin r.range.begin

unfoldable pub sort_by_address : MemoryMap → MemoryMap
sort_by_address m = insertion_sort is_before m
