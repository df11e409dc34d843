-- ===== src/Memory/VirtualAllocator.antt =====
-- Kernel/Memory/VirtualAllocator.{h,cpp}: first-fit allocation of address ranges. The set
-- `m_allocated_ranges` (ordered by `begin`, no duplicates) is the list of its elements in order; an
-- iterator is the element that it stands at, and `none` where it is `end()`. The lock and the
-- logging are left out; `err panic` is a call of `runtime::panic`.
pub mod RangeSet
pub mod Invariant
pub mod Merge
pub mod Neighbours
pub mod Query
pub mod Deallocate
pub mod Gap
pub mod Gaps
pub mod Allocate
pub mod AllocateRange
mod Tests
use ultra_os.Common.{
  ℕ, ◌+◌, ◌-◌, ◌%◌, Bool, true, false, not, ◌&&◌, ◌||◌, ltb, leb, ◌==◌, if◌then◌else◌, Result, ok,
  err, Fault, assertion, panic, guard, ◌>>◌, ◌>>=◌, add64, sub64, List, [], ◌∷◌, Option, none, some,
}
use ultra_os.Memory.Page.{page_size, round_up, round_down, is_aligned}
use ultra_os.Memory.Range.{
  Range, no_range, make, from_two_pointers, length_of, set_length, is_empty, contains_address,
  contains, clipped_with_begin, clipped_with_end, aligned_to,
}
use RangeSet.{lower_bound, upper_bound, before, last_of, is_nil, remove, emplace}

pub record VirtualAllocator : Type 0 where
  pub base : Range
  pub ranges : List Range

-- `VirtualAllocator(begin, end)`.
unfoldable pub create : ℕ → ℕ → Result Fault VirtualAllocator
unfolding make
create begin end = do base ← make begin (sub64 end begin); ok (record { base = base; ranges = [] })

unfoldable pub reset_with : VirtualAllocator → ℕ → ℕ → Result Fault VirtualAllocator
unfolding from_two_pointers
reset_with s begin end = do
  base ← from_two_pointers begin end
  ok (record { base = base; ranges = [] })

-- The element at `address`, or the one before it: `none` stands for the early `return false` and
-- for the panic at `begin()`.
unfoldable pub at_or_before : List Range → ℕ → Option Range
at_or_before l address = elim (lower_bound l address) [
  | none ↦ before l address
  | some r ↦ if r.begin == address then some r else before l address
]

unfoldable pub is_allocated : VirtualAllocator → ℕ → Bool
unfolding at_or_before
is_allocated s address =
    if not (contains_address s.base address)
    then false
    else if is_nil s.ranges
    then false
    else elim (at_or_before s.ranges address) [ none ↦ false | some r ↦ contains_address r address ]

-- `before_mergeable` and `after_mergeable`.
abbrev pub ends_at : Option Range → ℕ → Bool
ends_at none x = false
ends_at (some r) x = r.end == x

abbrev pub begins_at : Option Range → ℕ → Bool
begins_at none x = false
begins_at (some r) x = r.begin == x

-- The ends of a neighbour; only read where the neighbour is mergeable.
abbrev pub begin_of : Option Range → ℕ → ℕ
begin_of none d = d
begin_of (some r) d = r.begin

abbrev pub end_of : Option Range → ℕ → ℕ
end_of none d = d
end_of (some r) d = r.end

abbrev pub remove_at : Option Range → List Range → List Range
remove_at none l = l
remove_at (some r) l = remove r l

unfoldable pub merge_and_emplace :
    List Range → Option Range → Option Range → Range → Result Fault (List Range)
unfolding from_two_pointers
merge_and_emplace l prev next new_range =
    let left = ends_at prev new_range.begin in
    let right = begins_at next new_range.end in
    if left && right
    then (do
      merged ← from_two_pointers (begin_of prev new_range.begin) (end_of next new_range.end)
      ok (emplace merged (remove_at next (remove_at prev l))))
    else if left
    then (do
      merged ← from_two_pointers (begin_of prev new_range.begin) new_range.end
      ok (emplace merged (remove_at prev l)))
    else if right
    then (do
      merged ← from_two_pointers new_range.begin (end_of next new_range.end)
      ok (emplace merged (remove_at next l)))
    else ok (emplace new_range l)

-- What the `for` loop of `allocate` leaves in its variables.
pub record Search : Type 0 where
  pub allocated : Range
  pub range_before : Option Range
  pub range_after : Option Range
  pub gap_begin : ℕ

-- The `for` loop of `allocate`, at the ranges that are left.
unfoldable pub search : ℕ → ℕ → List Range → ℕ → Option Range → Result Fault Search
unfolding from_two_pointers aligned_to
search length alignment [] gap_begin prev = ok (record {
  allocated = no_range;
  range_before = prev;
  range_after = none;
  gap_begin = gap_begin;
})
search length alignment (r ∷ rs) gap_begin prev = do
  gap ← from_two_pointers gap_begin r.begin
  potential ← aligned_to gap alignment
  let rest = search length alignment rs r.end (some r)
  if is_empty potential || ltb (length_of potential) length
      then rest
      else ok (record {
        allocated = set_length length potential;
        range_before = prev;
        range_after = some r;
        gap_begin = gap_begin;
      })

-- `potential_range`, cut to the length, or the panic of `fail_on_allocation`.
unfoldable pub take_potential : ℕ → Range → Result Fault Range
take_potential length potential =
    if is_empty potential || ltb (length_of potential) length
    then err panic
    else ok (set_length length potential)

-- The search of the last gap, after the loop.
unfoldable pub search_last : VirtualAllocator → ℕ → ℕ → Search → Result Fault Search
unfolding from_two_pointers take_potential
search_last s length alignment found =
    let last = (do
      gap ← from_two_pointers found.gap_begin s.base.end
      potential ← aligned_to gap alignment
      range ← take_potential length potential
      ok (record found { allocated = range; range_before = last_of s.ranges })) in
    if is_empty found.allocated then last else ok found

-- `allocate(size_t, size_t)` for a length that is already rounded up.
unfoldable pub allocate_rounded : VirtualAllocator → ℕ → ℕ → Result Fault (VirtualAllocator × Range)
allocate_rounded s length alignment =
    if is_nil s.ranges
    then (do
      potential ← aligned_to s.base alignment
      range ← take_potential length potential
      ok (record s { ranges = emplace range s.ranges }, range))
    else (do
      looped ← search length alignment s.ranges s.base.begin none
      found ← search_last s length alignment looped
      ranges ← merge_and_emplace s.ranges found.range_before found.range_after found.allocated
      ok (record s { ranges = ranges }, found.allocated))

unfoldable pub allocate : VirtualAllocator → ℕ → ℕ → Result Fault (VirtualAllocator × Range)
unfolding allocate_rounded
allocate s length alignment =
    let aligned = if ltb alignment page_size then page_size else alignment in
    do
      guard (not (length == 0)) assertion
      guard (aligned % page_size == 0) assertion
      guard (leb length (round_up length)) panic
      allocate_rounded s (round_up length) aligned

-- `contains(const Range&)` of the allocator.
abbrev pub holds : VirtualAllocator → Range → Bool
holds s range = contains_address s.base range.begin && contains_address s.base (sub64 range.end 1)

-- The iterators `it` and `range_after` of `allocate(Range)`, for a range that begins at `begin`.
unfoldable pub neighbours : List Range → ℕ → Option Range × Option Range
neighbours l begin = elim (lower_bound l begin) [
  | none ↦ (before l begin, none)
  | some r ↦ if r.begin == begin then (some r, upper_bound l begin) else (before l begin, some r)
]

-- `it->contains(address)`, false at `end()`.
abbrev pub any_contains : Option Range → ℕ → Bool
any_contains none address = false
any_contains (some r) address = contains_address r address

-- `allocate(Range)` from the rounded range on.
unfoldable pub place_range : VirtualAllocator → Range → Result Fault (VirtualAllocator × Range)
place_range s range =
    let (it, after) = neighbours s.ranges range.begin in
    if is_nil s.ranges then ok (record s { ranges = emplace range s.ranges }, range) else (do
      guard (not (any_contains after (sub64 range.end 1))) panic
      guard (not (begins_at it range.begin || any_contains it range.begin)) panic
      ranges ← merge_and_emplace s.ranges it after range
      ok (record s { ranges = ranges }, range))

-- The range of whole pages around the request.
unfoldable pub page_range : Range → Result Fault Range
unfolding make
page_range requested =
    let begin = round_down requested.begin in
    make begin (round_up (sub64 (add64 (length_of requested) requested.begin) begin))

unfoldable pub allocate_range : VirtualAllocator → Range → Result Fault (VirtualAllocator × Range)
allocate_range s requested = do
  guard (not (is_empty requested)) assertion
  guard (holds s requested) assertion
  range ← page_range requested
  place_range s range

-- `if (range) m_allocated_ranges.emplace(range)`.
abbrev pub emplace_nonempty : Range → List Range → List Range
emplace_nonempty r l = if is_empty r then l else emplace r l

-- The rest of `deallocate`, at the element `it`.
unfoldable pub cut_out : VirtualAllocator → Range → Range → Result Fault VirtualAllocator
unfolding clipped_with_begin clipped_with_end
cut_out s range it = do
  guard (contains it range) panic
  range_before ← clipped_with_end it range.begin
  range_after ← clipped_with_begin it range.end
  ok (record s {
    ranges = emplace_nonempty range_after (emplace_nonempty range_before (remove it s.ranges));
  })

unfoldable pub deallocate : VirtualAllocator → Range → Result Fault VirtualAllocator
unfolding at_or_before cut_out is_aligned
deallocate s range = do
  guard (is_aligned range.begin) assertion
  guard (is_aligned (length_of range)) assertion
  guard (holds s range) panic
  guard (not (is_nil s.ranges)) panic
  elim (at_or_before s.ranges range.begin) [ none ↦ err panic | some it ↦ cut_out s range it ]
