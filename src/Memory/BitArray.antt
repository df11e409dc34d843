-- ===== src/Memory/BitArray.antt =====
-- Kernel/Common/DynamicBitArray.h: the bits by which a physical region tracks its pages. A storage unit
-- is the list of its 64 bits, lowest first; it equals the mask that is searched past when none of its
-- bits has the value, and `__builtin_ffsl(unit) - 1` is the index of the first that has.
pub mod Bits
pub mod Find
use ultra_os.Common.{
  ℕ, zero, suc, ◌+◌, ◌-◌, ◌*◌, ◌/◌, ◌%◌, ◌<◌, Bool, true, false, not, ltb, leb, ◌==◌, if◌then◌else◌,
  List, [], ◌∷◌, Option, none, some, get_or, set, length, replicate, Result, Fault, assertion,
  guard, ok, err, ◌>>=◌, ◌>>◌,
}

abbrev pub bits_per_unit : ℕ
bits_per_unit = 64

pub record BitArray : Type 0 where
  pub bit_count : ℕ
  pub units : List (List Bool)

-- `ceiling_divide` of Kernel/Common/Math.h at the size of a unit.
abbrev pub units_of : ℕ → ℕ
units_of bits = let one = if bits == 0 then 0 else 1 in one + (bits - one) / bits_per_unit

abbrev pub no_bits : List Bool
no_bits = replicate 64 false

-- `DynamicBitArray(size_t)`; the units that an array expands by are zeros.
unfoldable pub with_size : ℕ → BitArray
with_size initial_size = record {
  bit_count = initial_size;
  units = replicate (units_of initial_size) no_bits;
}

unfoldable pub bit_at : ℕ → BitArray → Bool
bit_at index b = get_or (get_or b.units (index / bits_per_unit) []) (index % bits_per_unit) false

unfoldable pub set_bit : ℕ → Bool → BitArray → Result Fault BitArray
set_bit index to b = do
  guard (ltb index b.bit_count) assertion
  let unit = get_or b.units (index / bits_per_unit) []
  ok (record b {
    units = set b.units (index / bits_per_unit) (set unit (index % bits_per_unit) to);
  })

abbrev pub same_bit : Bool → Bool → Bool
same_bit true b = b
same_bit false b = not b

-- The first bit of a unit that has the value.
unfoldable pub first_bit : Bool → List Bool → Option ℕ
first_bit of_value [] = none
first_bit of_value (b ∷ bs) =
    if same_bit of_value b
    then some 0
    else elim (first_bit of_value bs) [ none ↦ none | some k ↦ some (k + 1) ]

-- The loop over the `remaining` units from `index_of_unit` on.
unfoldable pub find_in_units : Bool → ℕ → ℕ → BitArray → Option ℕ
unfolding first_bit
find_in_units of_value zero index_of_unit b = none
find_in_units of_value (suc remaining) index_of_unit b =
    let rest = find_in_units of_value remaining (index_of_unit + 1) b in
    elim (first_bit of_value (get_or b.units index_of_unit [])) [
      | none ↦ rest
      | some k ↦
          (let target_bit = k + index_of_unit * bits_per_unit in
            if leb b.bit_count target_bit then none else some target_bit)
    ]

-- The two passes: from the unit of the hint to the last, and then the units before it.
unfoldable pub find_bit : Bool → ℕ → BitArray → Result Fault (Option ℕ)
unfolding find_in_units
find_bit of_value hint b = do
  guard (ltb hint b.bit_count) assertion
  let start = hint / bits_per_unit
  ok (elim (find_in_units of_value (units_of b.bit_count - start) start b) [
    | none ↦ find_in_units of_value start 0 b
    | some k ↦ some k
  ])

-- `set_range_to`, which sets one bit after the other.
unfoldable pub set_bits : ℕ → ℕ → Bool → BitArray → Result Fault BitArray
unfolding set_bit
set_bits at_index zero value b = ok b
set_bits at_index (suc count) value b = do
  b' ← set_bit at_index value b
  set_bits (at_index + 1) count value b'

unfoldable pub set_range_to : ℕ → ℕ → Bool → BitArray → Result Fault BitArray
unfolding set_bits
set_range_to at_index count value b = do
  guard (leb (at_index + count) b.bit_count) assertion
  set_bits at_index count value b
