-- ===== src/Memory/PhysicalRegion/Allocate.antt =====
-- `PhysicalRegion::allocate_page`: it takes a free page whenever there is one.
use ultra_os.Common.{
  ℕ, ◌+◌, ◌-◌, ◌*◌, ◌%◌, ◌^◌, ◌<◌, ◌≡◌, ◌≢◌, ◌⊎◌, inl, inr, refl, ◌∙◌, true, false, ◌==◌,
  if◌then◌else◌, none, some, ok, arith,
}
use native.Mathlib.Decide.{ℕ_discrete}
use ultra_os.Memory.BitArray.{find_bit}
use ultra_os.Memory.BitArray.Bits.{
  updated, set_bit-ok, bit_at-updated_self, bit_at-updated_ne, zeros_less, zeros_none, zeros_all,
  zeros-le,
}
use ultra_os.Memory.BitArray.Find.{find_bit_complete}
use ultra_os.Memory.PhysicalRegion.{PhysicalRegion, allocate_page}
use ultra_os.Memory.PhysicalRegion.Pages.{
  IsValid, IsFree, IsTaken, SameBut, changed, others, changed-IsValid,
}

allocates :
    (r : PhysicalRegion) (k : ℕ)
    → IsValid r
    → r.free_pages ≢ 0
    → find_bit false r.next_hint r.allocation_map ≡ ok (some k)
    → k < r.allocation_map.bit_count
    → allocate_page r
      ≡ ok (
        some (r.range.begin + k * 4096),
        changed k true
            (r.free_pages - 1)
            (if k + 1 == r.allocation_map.bit_count then 0 else k + 1)
            r,
      )
unfolding allocate_page
allocates r k v ne e l =
    let some_free : (r.free_pages == 0) ≡ false = ground arith in
    let small = zeros-le r.allocation_map.bit_count r.allocation_map in
    let one : (r.free_pages + 2 ^ 64 - 1) % 2 ^ 64 ≡ r.free_pages - 1 =
      omega (arith, v.count, v.pages, v.range_valid, small, ne) in
    let address : (r.range.begin + k * 4096 % 2 ^ 64) % 2 ^ 64 ≡ r.range.begin + k * 4096 =
      omega (arith, v.pages, v.range_valid) in
    rw (allocate_page, some_free, e, set_bit-ok k true r.allocation_map l, one, address) refl

empty : (r : PhysicalRegion) → r.free_pages ≡ 0 → allocate_page r ≡ ok (none, r)
unfolding allocate_page
empty r e = ground arith

none-IsFree : (r : PhysicalRegion) → IsValid r → r.free_pages ≡ 0 → (a : ℕ) → ¬ IsFree r a
none-IsFree r v e a f =
    let taken =
      zeros_none r.allocation_map.bit_count r.allocation_map (v.count ∙ e) f.index f.index_lt in
    ground (arith, taken, f.bit)

-- Allocating on a well-formed region does not assert. With no free page left it gives nothing, and
-- then every page of the region is taken; otherwise it gives a page of the region
-- that was free, which is then taken while every other page is as it was.
pub allocate_page_lem :
    (r : PhysicalRegion)
    → IsValid r
    → ((r.free_pages ≡ 0) × (allocate_page r ≡ ok (none, r)) × ((a : ℕ) → ¬ IsFree r a))
      ⊎ ((page : ℕ) × (r' : PhysicalRegion) × (allocate_page r ≡ ok (some page, r'))
          × IsFree r page
          × IsTaken r' page
          × SameBut page r r'
          × IsValid r'
          × (r'.free_pages + 1 ≡ r.free_pages))
allocate_page_lem r v = elim (ℕ_discrete r.free_pages 0) [
  | yes e ↦ inl (e, empty r e, none-IsFree r v e)
  | no ne ↦
      let n = r.allocation_map.bit_count in
      let positive : n ≢ 0 = λ z. omega (arith, z, ne, v.count, zeros-le n r.allocation_map) in
      elim (find_bit_complete false r.next_hint r.allocation_map v.bits_valid (v.hint positive)) [
        | inl (k, e, l, b) ↦
            let less =
              zeros_less n k r.allocation_map (updated k true r.allocation_map) l b
                (bit_at-updated_self k true r.allocation_map v.bits_valid l)
                (λ j i. bit_at-updated_ne k j true r.allocation_map v.bits_valid l i) in
            let hint = if k + 1 == n then 0 else k + 1 in
            inr (
              r.range.begin + k * 4096,
              changed k true (r.free_pages - 1) hint r,
              allocates r k v ne e l,
              record { index = k; index_lt = l; address_eq = refl; bit = b },
              record {
                index = k;
                index_lt = l;
                address_eq = refl;
                bit = bit_at-updated_self k true r.allocation_map v.bits_valid l;
              },
              others k true (r.free_pages - 1) hint r v l,
              changed-IsValid k true (r.free_pages - 1) hint r v l (ground arith)
                  (omega (arith, less, v.count)),
              omega (arith, ne),
            )
        | inr (_, all) ↦ absurd (omega (arith, ne, v.count, zeros_all n r.allocation_map all))
      ]
]
