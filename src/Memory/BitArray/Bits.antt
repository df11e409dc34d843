-- ===== src/Memory/BitArray/Bits.antt =====
-- Reading and setting one bit, and how many bits have a value.
use ultra_os.Common.{
  ℕ, zero, suc, ◌+◌, ◌*◌, ◌/◌, ◌%◌, ◌≤◌, ◌<◌, ◌≡◌, ◌≢◌, refl, sym, ap, subst, ◌∙◌, Bool, true,
  false, if◌then◌else◌, [], get_or, set, length, replicate, length-set, length-replicate,
  get_or-set_self, get_or-set_ne, ok, arith,
}
use native.Mathlib.Decide.{ℕ_discrete}
use ultra_os.Memory.BitArray.{BitArray, bit_at, set_bit, units_of, with_size, no_bits}

-- The units cover the bits, and each has 64.
pub record IsValid (b : BitArray) : Type 0 where
  pub covers : b.bit_count ≤ length b.units * 64
  pub full : (u : ℕ) → u < length b.units → length (get_or b.units u []) ≡ 64

-- The array after a bit is set.
abbrev pub updated : ℕ → Bool → BitArray → BitArray
updated i v b = record b {
  units = set b.units (i / 64) (set (get_or b.units (i / 64) []) (i % 64) v);
}

pub set_bit-ok :
    (i : ℕ) (v : Bool) (b : BitArray) → i < b.bit_count → set_bit i v b ≡ ok (updated i v b)
unfolding set_bit
set_bit-ok i v b h = ground arith

pub updated-IsValid :
    (i : ℕ) (v : Bool) (b : BitArray) → IsValid b → i < b.bit_count → IsValid (updated i v b)
updated-IsValid i v b w h = record {
  covers =
      omega (
        arith,
        w.covers,
        length-set b.units (i / 64) (set (get_or b.units (i / 64) []) (i % 64) v),
      );
  full = λ u l. elim (ℕ_discrete u (i / 64)) [
    | yes e ↦ rw e (
        ap length (
          get_or-set_self b.units (i / 64) (set (get_or b.units (i / 64) []) (i % 64) v) []
            (omega (arith, w.covers)))
        ∙ length-set (get_or b.units (i / 64) []) (i % 64) v
        ∙ w.full (i / 64) (omega (arith, w.covers)))
    | no ne ↦
        ap length (
          get_or-set_ne b.units (i / 64) u (set (get_or b.units (i / 64) []) (i % 64) v) []
            (λ e. ne (sym e)))
        ∙ w.full u (
            omega
              (arith, l, length-set b.units (i / 64) (set (get_or b.units (i / 64) []) (i % 64) v)))
  ];
}

pub bit_at-updated_self :
    (i : ℕ) (v : Bool) (b : BitArray) → IsValid b → i < b.bit_count → bit_at i (updated i v b) ≡ v
unfolding bit_at
bit_at-updated_self i v b w h =
    ap (λ unit. get_or unit (i % 64) false)
      (get_or-set_self b.units (i / 64) (set (get_or b.units (i / 64) []) (i % 64) v) []
        (omega (arith, w.covers)))
    ∙ get_or-set_self (get_or b.units (i / 64) []) (i % 64) v false
        (omega (arith, w.full (i / 64) (omega (arith, w.covers))))

pub bit_at-updated_ne :
    (i j : ℕ) (v : Bool) (b : BitArray)
    → IsValid b
    → i < b.bit_count
    → i ≢ j
    → bit_at j (updated i v b) ≡ bit_at j b
unfolding bit_at
bit_at-updated_ne i j v b w h ne = elim (ℕ_discrete (i / 64) (j / 64)) [
  | yes e ↦ rw (sym e) (
      ap (λ unit. get_or unit (j % 64) false)
        (get_or-set_self b.units (i / 64) (set (get_or b.units (i / 64) []) (i % 64) v) []
          (omega (arith, w.covers)))
      ∙ get_or-set_ne (get_or b.units (i / 64) []) (i % 64) (j % 64) v false (omega (arith, ne)))
  | no apart ↦
      ap (λ unit. get_or unit (j % 64) false)
        (get_or-set_ne b.units (i / 64) (j / 64) (set (get_or b.units (i / 64) []) (i % 64) v) []
          apart)
]

pub get_or-replicate : {A : Type 0} (n i : ℕ) (a d : A) → i < n → get_or (replicate n a) i d ≡ a
get_or-replicate zero i a d h = absurd (omega arith)
get_or-replicate (suc n) zero a d h = refl
get_or-replicate (suc n) (suc i) a d h = get_or-replicate n i a d (omega arith)

pub units_of-covers : (n : ℕ) → (n ≤ units_of n * 64) × (units_of n * 64 < n + 64)
units_of-covers n = ground arith

pub with_size-IsValid : (n : ℕ) → IsValid (with_size n)
unfolding with_size
with_size-IsValid n = record {
  covers = omega (arith, units_of-covers n, length-replicate (units_of n) no_bits);
  full = λ u l. ap length (
      get_or-replicate (units_of n) u no_bits []
        (omega (arith, l, length-replicate (units_of n) no_bits)));
}

pub bit_at-with_size : (n i : ℕ) → i < n → bit_at i (with_size n) ≡ false
unfolding bit_at with_size
bit_at-with_size n i h =
    ap (λ unit. get_or unit (i % 64) false)
      (get_or-replicate (units_of n) (i / 64) no_bits [] (omega (arith, units_of-covers n)))
    ∙ get_or-replicate 64 (i % 64) false false (omega arith)

-- How many of the first `n` bits are 0.
unfoldable pub zeros : ℕ → BitArray → ℕ
zeros zero b = 0
zeros (suc n) b = (if bit_at n b then 0 else 1) + zeros n b

pub zeros-le : (n : ℕ) (b : BitArray) → zeros n b ≤ n
unfolding zeros
zeros-le zero b = omega arith
zeros-le (suc n) b = ground (arith, zeros-le n b)

zeros_ext :
    (n : ℕ) (b c : BitArray) → ((i : ℕ) → i < n → bit_at i b ≡ bit_at i c) → zeros n b ≡ zeros n c
unfolding zeros
zeros_ext zero b c h = refl
zeros_ext (suc n) b c h =
    ground (arith, h n (omega arith), zeros_ext n b c (λ i l. h i (omega arith)))

pub zeros-with_size : (n k : ℕ) → k ≤ n → zeros k (with_size n) ≡ k
unfolding zeros
zeros-with_size n zero h = refl
zeros-with_size n (suc k) h =
    ground (arith, bit_at-with_size n k (omega arith), zeros-with_size n k (omega arith))

-- A bit that goes from 0 to 1 takes one off.
pub zeros_less :
    (n i : ℕ) (b c : BitArray)
    → i < n
    → bit_at i b ≡ false
    → bit_at i c ≡ true
    → ((j : ℕ) → i ≢ j → bit_at j c ≡ bit_at j b)
    → zeros n b ≡ zeros n c + 1
unfolding zeros
zeros_less zero i b c h e e' same = absurd (omega arith)
zeros_less (suc n) i b c h e e' same = elim (ℕ_discrete i n) [
  | yes q ↦
      let eb : bit_at n b ≡ false = subst (λ k. bit_at k b ≡ false) q e in
      let ec : bit_at n c ≡ true = subst (λ k. bit_at k c ≡ true) q e' in
      let rest = zeros_ext n b c (λ j l. sym (same j (omega arith))) in ground (arith, eb, ec, rest)
  | no ne ↦ ground (arith, same n ne, zeros_less n i b c (omega arith) e e' same)
]

pub zeros_none : (n : ℕ) (b : BitArray) → zeros n b ≡ 0 → (i : ℕ) → i < n → bit_at i b ≡ true
unfolding zeros
zeros_none zero b e i h = absurd (omega arith)
zeros_none (suc n) b e i h = elim (ℕ_discrete i n) [
  | yes q ↦ subst (λ k. bit_at k b ≡ true) (sym q) (ground (arith, e))
  | no ne ↦ zeros_none n b (ground (arith, e)) i (omega arith)
]

pub zeros_all : (n : ℕ) (b : BitArray) → ((i : ℕ) → i < n → bit_at i b ≢ false) → zeros n b ≡ 0
unfolding zeros
zeros_all zero b h = refl
zeros_all (suc n) b h = ground (arith, h n (omega arith), zeros_all n b (λ i l. h i (omega arith)))
