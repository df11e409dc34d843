-- ===== src/Memory/PhysicalRegion/Free.antt =====
-- `PhysicalRegion::free_page`: it gives a taken page back, and asserts on everything else.
use ultra_os.Common.{
  ℕ, ◌+◌, ◌-◌, ◌*◌, ◌/◌, ◌%◌, ◌^◌, ◌<◌, ◌≡◌, inl, inr, refl, sym, ◌∙◌, true, false, ◌==◌, assertion,
  ok, err, arith, Bool-cases, ◌&&◌,
}
use ultra_os.Memory.Page.{is_aligned}
use ultra_os.Memory.Range.{contains_address}
use ultra_os.Memory.BitArray.{bit_at}
use ultra_os.Memory.BitArray.Bits.{
  updated, set_bit-ok, bit_at-updated_self, bit_at-updated_ne, zeros_less, zeros-le,
}
use ultra_os.Memory.PhysicalRegion.{PhysicalRegion, free_page, physical_address_as_bit}
use ultra_os.Memory.PhysicalRegion.Pages.{
  IsValid, IsFree, IsTaken, SameBut, changed, others, changed-IsValid,
}

in_region :
    (r : PhysicalRegion) (a index : ℕ)
    → IsValid r
    → index < r.allocation_map.bit_count
    → a ≡ r.range.begin + index * 4096
    → (contains_address r.range a ≡ true) × (physical_address_as_bit r a ≡ ok index)
unfolding physical_address_as_bit is_aligned
in_region r a index v l e =
    let bit : (a + 2 ^ 64 - r.range.begin) % 2 ^ 64 / 4096 ≡ index =
      omega (arith, v.pages, v.range_valid) in
    let aligned : (a % 4096 == 0) ≡ true = ground (arith, v.begin_aligned) in
    (ground (arith, v.pages), rw (aligned, bit) refl)

frees :
    (r : PhysicalRegion) (a : ℕ)
    → IsValid r
    → (t : IsTaken r a)
    → free_page a r ≡ ok (changed t.index false (r.free_pages + 1) r.next_hint r)
unfolding free_page
frees r a v t =
    let (inside, index) = in_region r a t.index v t.index_lt t.address_eq in
    let small = zeros-le r.allocation_map.bit_count r.allocation_map in
    let one : (r.free_pages + 1) % 2 ^ 64 ≡ r.free_pages + 1 =
      omega (arith, v.count, v.pages, v.range_valid, small) in
    rw (free_page, inside, index, t.bit, set_bit-ok t.index false r.allocation_map t.index_lt, one)
      refl

double_free : (r : PhysicalRegion) (a : ℕ) → IsValid r → IsFree r a → free_page a r ≡ err assertion
unfolding free_page
double_free r a v f =
    let (inside, index) = in_region r a f.index v f.index_lt f.address_eq in
    rw (free_page, inside, index, f.bit) refl

no_page :
    (r : PhysicalRegion) (a : ℕ)
    → IsValid r
    → ¬ IsFree r a
    → ¬ IsTaken r a
    → free_page a r ≡ err assertion
unfolding free_page physical_address_as_bit is_aligned
no_page r a v nf nt = elim (Bool-cases (contains_address r.range a && a % 4096 == 0)) [
  | inl good ↦
      let index = (a - r.range.begin) / 4096 in
      let l : index < r.allocation_map.bit_count = ground (arith, v.pages, good) in
      let e : a ≡ r.range.begin + index * 4096 = ground (arith, v.begin_aligned, good) in
      elim (Bool-cases (bit_at index r.allocation_map)) [
        | inl b ↦ absurd (nt (record { index = index; index_lt = l; address_eq = e; bit = b }))
        | inr b ↦ absurd (nf (record { index = index; index_lt = l; address_eq = e; bit = b }))
      ]
  | inr bad ↦ ground (arith, bad)
]

freed :
    (r : PhysicalRegion) (a : ℕ)
    → IsValid r
    → IsTaken r a
    → (r' : PhysicalRegion) × (free_page a r ≡ ok r')
      × IsFree r' a
      × SameBut a r r'
      × IsValid r'
      × (r'.free_pages ≡ r.free_pages + 1)
freed r a v t =
    let n = r.allocation_map.bit_count in
    let count = r.free_pages + 1 in
    let self = bit_at-updated_self t.index false r.allocation_map v.bits_valid t.index_lt in
    let more =
      zeros_less n t.index (updated t.index false r.allocation_map) r.allocation_map t.index_lt self
        t.bit
        (λ j i.
          sym (bit_at-updated_ne t.index j false r.allocation_map v.bits_valid t.index_lt i)) in
    (
      changed t.index false count r.next_hint r,
      frees r a v t,
      record { index = t.index; index_lt = t.index_lt; address_eq = t.address_eq; bit = self },
      (λ x ne.
          others t.index false count r.next_hint r v t.index_lt x (λ e. ne (e ∙ sym t.address_eq))),
      changed-IsValid t.index false count r.next_hint r v t.index_lt
          (v.hint (λ z. omega (arith, z, t.index_lt))) (omega (arith, more, v.count)),
      refl,
    )

-- Freeing a page that is taken goes through, and then it is free while every other page is as it
-- was. Freeing a page of the region that is free already asserts, as does an address outside
-- the region or one that is not a page's.
pub free_page_lem :
    (r : PhysicalRegion) (a : ℕ)
    → IsValid r
    → (IsTaken r a
        → (r' : PhysicalRegion) × (free_page a r ≡ ok r')
          × IsFree r' a
          × SameBut a r r'
          × IsValid r'
          × (r'.free_pages ≡ r.free_pages + 1))
      × (IsFree r a → free_page a r ≡ err assertion)
      × (¬ IsFree r a → ¬ IsTaken r a → free_page a r ≡ err assertion)
free_page_lem r a v = (freed r a v, λ f. double_free r a v f, λ nf nt. no_page r a v nf nt)
