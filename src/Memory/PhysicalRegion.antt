-- ===== src/Memory/PhysicalRegion.antt =====
-- Kernel/Memory/PhysicalRegion.{h,cpp}: the pages of one range of physical memory. A page is its address.
pub mod Pages
pub mod Allocate
pub mod Free
use ultra_os.Common.{
  ℕ, ◌+◌, ◌-◌, ◌*◌, ◌/◌, ◌%◌, ◌^◌, Bool, true, false, ◌==◌, if◌then◌else◌, Option, none, some,
  Result, Fault, assertion, guard, ok, err, ◌>>=◌, ◌>>◌, add64, sub64, mul64,
}
use ultra_os.Memory.Page.{page_size, is_aligned}
use ultra_os.Memory.Range.{Range, length_of, contains_address}
use ultra_os.Memory.BitArray.{BitArray, with_size, find_bit, set_bit, bit_at}

pub record PhysicalRegion : Type 0 where
  pub range : Range
  pub free_pages : ℕ
  pub allocation_map : BitArray
  pub next_hint : ℕ

unfoldable pub create : Range → Result Fault PhysicalRegion
create range = do
  let free_pages = length_of range / page_size
  guard (is_aligned range.begin) assertion
  guard (is_aligned (length_of range)) assertion
  ok (record {
    range = range;
    free_pages = free_pages;
    allocation_map = with_size free_pages;
    next_hint = 0;
  })

abbrev pub bit_as_physical_address : PhysicalRegion → ℕ → ℕ
bit_as_physical_address r bit = add64 r.range.begin (mul64 bit page_size)

unfoldable pub physical_address_as_bit : PhysicalRegion → ℕ → Result Fault ℕ
physical_address_as_bit r address = do
  guard (is_aligned address) assertion
  ok (sub64 address r.range.begin / page_size)

-- What is stored once `find_bit` has found `index`.
abbrev take_page : PhysicalRegion → ℕ → Result Fault (Option ℕ × PhysicalRegion)
take_page r index = do
  allocation_map ← set_bit index true r.allocation_map
  let r' : PhysicalRegion = record {
    range = r.range;
    free_pages = sub64 r.free_pages 1;
    allocation_map = allocation_map;
    next_hint = if index + 1 == r.allocation_map.bit_count then 0 else index + 1;
  }
  ok (some (bit_as_physical_address r' index), r')

unfoldable pub allocate_page : PhysicalRegion → Result Fault (Option ℕ × PhysicalRegion)
allocate_page r = if r.free_pages == 0 then ok (none, r) else (do
  found ← find_bit false r.next_hint r.allocation_map
  elim found [ none ↦ ok (none, r) | some index ↦ take_page r index ])

unfoldable pub free_page : ℕ → PhysicalRegion → Result Fault PhysicalRegion
unfolding physical_address_as_bit
free_page page r = do
  guard (contains_address r.range page) assertion
  bit ← physical_address_as_bit r page
  guard (bit_at bit r.allocation_map) assertion
  allocation_map ← set_bit bit false r.allocation_map
  ok (record {
    range = r.range;
    free_pages = add64 r.free_pages 1;
    allocation_map = allocation_map;
    next_hint = r.next_hint;
  })
