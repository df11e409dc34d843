-- ===== src/Memory/Range.antt =====
-- Kernel/Memory/Range.h, `BasicRange<Address64>`: a half-open range of addresses. An operation
-- that asserts comes back with a `Fault`; the setters are record updates where they are used.
pub mod Bounds
pub mod Laws
use ultra_os.Common.{
  ℕ, ◌-◌, ◌%◌, Bool, true, false, not, ◌&&◌, ◌||◌, ltb, leb, ◌==◌, if◌then◌else◌, Result, ok, Fault,
  assertion, guard, ◌>>◌, add64, sub64,
}

pub record Range : Type 0 where
  pub begin : ℕ
  pub end : ℕ

-- `Range {}`.
abbrev pub no_range : Range
no_range = record { begin = 0; end = 0 }

-- The constructor.
unfoldable pub make : ℕ → ℕ → Result Fault Range
make start length = do
  let r : Range = record { begin = start; end = add64 start length }
  guard (leb r.begin r.end) assertion
  ok r

unfoldable pub from_two_pointers : ℕ → ℕ → Result Fault Range
from_two_pointers begin end = do
  guard (leb begin end) assertion
  ok (record { begin = begin; end = end })

abbrev pub create_empty_at : ℕ → Range
create_empty_at address = record { begin = address; end = address }

abbrev pub length_of : Range → ℕ
length_of r = sub64 r.end r.begin

abbrev pub set_length : ℕ → Range → Range
set_length length r = record r { end = add64 r.begin length }

abbrev pub extend_by : ℕ → Range → Range
extend_by length r = record r { end = add64 r.end length }

abbrev pub advance_begin_by : ℕ → Range → Range
advance_begin_by length r = record r { begin = add64 r.begin length }

abbrev pub is_empty : Range → Bool
is_empty r = r.begin == r.end

-- `contains(AddrT)`.
abbrev pub contains_address : Range → ℕ → Bool
contains_address r address = leb r.begin address && ltb address r.end

-- `contains(const BasicRange&)`.
abbrev pub contains : Range → Range → Bool
contains r other = contains_address r other.begin && leb other.end r.end

unfoldable pub overlaps : Range → Range → Bool
overlaps r other =
    if is_empty r || is_empty other
    then false
    else contains_address r other.begin || contains_address other r.begin

unfoldable pub clipped_with_begin : Range → ℕ → Result Fault Range
unfolding from_two_pointers
clipped_with_begin r address = do
  guard (contains_address r address || address == r.end) assertion
  from_two_pointers address r.end

unfoldable pub clipped_with_end : Range → ℕ → Result Fault Range
unfolding from_two_pointers
clipped_with_end r address = do
  guard (contains_address r address || address == r.end) assertion
  from_two_pointers r.begin address

-- `min` and `max` of Kernel/Common/Utilities.h, as they compare.
abbrev pub min_of : ℕ → ℕ → ℕ
min_of l r = if ltb l r then l else r

abbrev pub max_of : ℕ → ℕ → ℕ
max_of l r = if ltb l r then r else l

-- The two `if`s that move the ends of `new_range`.
abbrev raise_begin : Range → ℕ → Range → Range
raise_begin r lowest new_range =
    if ltb r.begin lowest
    then record new_range { begin = min_of (add64 r.begin (sub64 lowest r.begin)) r.end }
    else new_range

abbrev lower_end : Range → ℕ → Range → Range
lower_end r highest new_range =
    if ltb highest r.end
    then record new_range { end = max_of (sub64 r.end (sub64 r.end highest)) r.begin }
    else new_range

-- What follows the assertion of `constrained_by`.
abbrev constrain : Range → ℕ → ℕ → Result Fault Range
unfolding from_two_pointers
constrain r lowest highest =
    if is_empty r
    then ok r
    else if ltb highest r.begin
    then from_two_pointers r.begin r.begin
    else if ltb r.end lowest
    then from_two_pointers r.end r.end
    else ok (lower_end r highest (raise_begin r lowest r))

unfoldable pub constrained_by : Range → ℕ → ℕ → Result Fault Range
unfolding from_two_pointers
constrained_by r lowest highest = do
  guard (ltb lowest highest) assertion
  constrain r lowest highest

-- `aligned_begin` of `align_to` and `aligned_to`.
abbrev pub aligned_begin : Range → ℕ → ℕ
aligned_begin r alignment =
    if r.begin % alignment == 0 then r.begin else add64 r.begin (alignment - r.begin % alignment)

unfoldable pub is_aligned_to : Range → ℕ → Bool
is_aligned_to r alignment = r.begin % alignment == 0

unfoldable pub align_to : Range → ℕ → Result Fault Range
align_to r alignment = do
  guard (ltb (aligned_begin r alignment) r.end) assertion
  guard (leb r.begin (aligned_begin r alignment)) assertion
  ok (record r { begin = aligned_begin r alignment })

unfoldable pub aligned_to : Range → ℕ → Result Fault Range
unfolding from_two_pointers
aligned_to r alignment =
    if ltb (aligned_begin r alignment) r.begin || leb r.end (aligned_begin r alignment)
    then ok no_range
    else from_two_pointers (aligned_begin r alignment) r.end
