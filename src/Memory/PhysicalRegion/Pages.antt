-- ===== src/Memory/PhysicalRegion/Pages.antt =====
-- A physical region as a set of free pages: what allocating and freeing do to it.
use ultra_os.Common.{ℕ, ◌+◌, ◌*◌, ◌/◌, ◌%◌, ◌<◌, ◌≡◌, ◌≢◌, refl, ◌∙◌, Bool, true, false, ok, arith}
use ultra_os.Memory.Page.{is_aligned}
use ultra_os.Memory.Range.{Range, length_of}
use ultra_os.Memory.Range.Bounds
use ultra_os.Memory.BitArray.{with_size, bit_at}
use ultra_os.Memory.BitArray.Bits
use ultra_os.Memory.BitArray.Bits.{
  updated, set_bit-ok, updated-IsValid, bit_at-updated_self, bit_at-updated_ne, with_size-IsValid,
  bit_at-with_size, zeros, zeros-with_size, zeros_less, zeros_none, zeros_all, zeros-le,
}
use ultra_os.Memory.PhysicalRegion.{PhysicalRegion, create}

-- The range is whole pages, one bit for each, and the count of free pages is the count of zeros.
pub record IsValid (r : PhysicalRegion) : Type 0 where
  pub range_valid : Bounds.IsValid r.range
  pub bits_valid : Bits.IsValid r.allocation_map
  pub begin_aligned : r.range.begin % 4096 ≡ 0
  pub pages : r.range.begin + r.allocation_map.bit_count * 4096 ≡ r.range.end
  pub hint : r.allocation_map.bit_count ≢ 0 → r.next_hint < r.allocation_map.bit_count
  pub count : zeros r.allocation_map.bit_count r.allocation_map ≡ r.free_pages

-- The page at an address is one of the region's, and free; or taken.
pub record IsFree (r : PhysicalRegion) (address : ℕ) : Type 0 where
  pub index : ℕ
  pub index_lt : index < r.allocation_map.bit_count
  pub address_eq : address ≡ r.range.begin + index * 4096
  pub bit : bit_at index r.allocation_map ≡ false

pub record IsTaken (r : PhysicalRegion) (address : ℕ) : Type 0 where
  pub index : ℕ
  pub index_lt : index < r.allocation_map.bit_count
  pub address_eq : address ≡ r.range.begin + index * 4096
  pub bit : bit_at index r.allocation_map ≡ true

-- Every other page is as it was.
abbrev pub SameBut : ℕ → PhysicalRegion → PhysicalRegion → Type 0
SameBut address r r' =
    (a : ℕ) → a ≢ address → (IsFree r a → IsFree r' a) × (IsTaken r a → IsTaken r' a)

create_lem :
    (range : Range)
    → Bounds.IsValid range
    → range.begin % 4096 ≡ 0
    → range.end % 4096 ≡ 0
    → (r : PhysicalRegion) × (create range ≡ ok r) × IsValid r × (r.range ≡ range)
unfolding create is_aligned with_size
create_lem range v a b =
    let n = length_of range / 4096 in
    (
      record { range = range; free_pages = n; allocation_map = with_size n; next_hint = 0 },
      ground (arith, v),
      record {
        range_valid = v;
        bits_valid = with_size-IsValid n;
        begin_aligned = a;
        pages = omega (arith, v);
        hint = λ ne. omega (arith, ne);
        count = zeros-with_size n n (omega arith);
      },
      refl,
    )

-- The region with the bit of a page changed, and the count and the hint that go with it.
abbrev pub changed : ℕ → Bool → ℕ → ℕ → PhysicalRegion → PhysicalRegion
changed index v count hint r = record {
  range = r.range;
  free_pages = count;
  allocation_map = updated index v r.allocation_map;
  next_hint = hint;
}

module _ (index : ℕ) (v : Bool) (count hint : ℕ) (r : PhysicalRegion) (w : IsValid r)
    (h : index < r.allocation_map.bit_count) where
  abbrev page : ℕ
  page = r.range.begin + index * 4096

  pub others : SameBut page r (changed index v count hint r)
  others a ne = (
    λ f. record {
      index = f.index;
      index_lt = f.index_lt;
      address_eq = f.address_eq;
      bit =
          bit_at-updated_ne index f.index v r.allocation_map w.bits_valid h
            (omega (arith, f.address_eq, ne))
          ∙ f.bit;
    },
    λ t. record {
      index = t.index;
      index_lt = t.index_lt;
      address_eq = t.address_eq;
      bit =
          bit_at-updated_ne index t.index v r.allocation_map w.bits_valid h
            (omega (arith, t.address_eq, ne))
          ∙ t.bit;
    },
  )

  pub changed-IsValid :
      hint < r.allocation_map.bit_count
      → zeros r.allocation_map.bit_count (updated index v r.allocation_map) ≡ count
      → IsValid (changed index v count hint r)
  changed-IsValid l e = record {
    range_valid = w.range_valid;
    bits_valid = updated-IsValid index v r.allocation_map w.bits_valid h;
    begin_aligned = w.begin_aligned;
    pages = w.pages;
    hint = λ _. l;
    count = e;
  }
