-- ===== src/Memory/MemoryMap/Shatter.antt =====
-- `PhysicalRange::shatter_against`: each address keeps the stronger of its types.
use ultra_os.Common.{
  ℕ, ◌≤◌, ◌<◌, ◌≡◌, ltb, if◌then◌else◌, List, [], ◌∷◌, max, ok, arith, compare-cases, inl, inr,
}
use native.Mathlib.Decide.{dec_lt}
use ultra_os.Memory.Range.{contains_address}
use ultra_os.Memory.Range.Bounds.{IsValid}
use ultra_os.Memory.Range.Laws.{In}
use ultra_os.Memory.MemoryMap.{
  PhysicalRange, shatter_against, no_physical_range, set_end, set_begin,
}

-- The greatest type of the ranges that hold an address; 0, which is no type, if none does.
unfoldable pub strongest : ℕ → List PhysicalRange → ℕ
strongest a [] = 0
strongest a (r ∷ rs) =
    if contains_address r.range a then max r.type (strongest a rs) else strongest a rs

-- What the three pieces are like.
pub record Shattered (r other x y z : PhysicalRange) : Type 0 where
  pub valid_x : IsValid x.range
  pub valid_y : IsValid y.range
  pub valid_z : IsValid z.range
  pub apart_xy : (a : ℕ) → In a x.range → ¬ In a y.range
  pub apart_xz : (a : ℕ) → In a x.range → ¬ In a z.range
  pub apart_yz : (a : ℕ) → In a y.range → ¬ In a z.range
  pub keeps_strongest : (a : ℕ) → strongest a (x ∷ y ∷ z ∷ []) ≡ strongest a (r ∷ other ∷ [])

module _ (r other : PhysicalRange) (v : IsValid r.range) (w : IsValid other.range)
    (h : In other.range.begin r.range) where
  abbrev Outcome : Type 0
  Outcome =
      (x y z : PhysicalRange) × (shatter_against r other ≡ ok (x, y, z)) × Shattered r other x y z

  same_type : r.type ≡ other.type → Outcome
  unfolding shatter_against strongest
  same_type t = (
    set_end (if ltb other.range.end r.range.end then r.range.end else other.range.end) r,
    no_physical_range,
    no_physical_range,
    ground arith,
    record {
      valid_x = ground arith;
      valid_y = ground arith;
      valid_z = ground arith;
      apart_xy = λ a p. ground arith;
      apart_xz = λ a p. ground arith;
      apart_yz = λ a p. ground arith;
      keeps_strongest = λ a. ground arith;
    },
  )

  stronger_outlasts : other.type < r.type → other.range.end < r.range.end → Outcome
  unfolding shatter_against strongest
  stronger_outlasts t q = (
    r,
    no_physical_range,
    no_physical_range,
    ground arith,
    record {
      valid_x = ground arith;
      valid_y = ground arith;
      valid_z = ground arith;
      apart_xy = λ a p. ground arith;
      apart_xz = λ a p. ground arith;
      apart_yz = λ a p. ground arith;
      keeps_strongest = λ a. ground arith;
    },
  )

  stronger_same_end : other.type < r.type → other.range.end ≡ r.range.end → Outcome
  unfolding shatter_against strongest
  stronger_same_end t q = (
    r,
    set_begin r.range.end other,
    record { range = record { begin = other.range.end; end = r.range.end }; type = r.type },
    ground arith,
    record {
      valid_x = ground arith;
      valid_y = ground arith;
      valid_z = ground arith;
      apart_xy = λ a p. ground arith;
      apart_xz = λ a p. ground arith;
      apart_yz = λ a p. ground arith;
      keeps_strongest = λ a. ground arith;
    },
  )

  stronger_ends : other.type < r.type → r.range.end < other.range.end → Outcome
  unfolding shatter_against strongest
  stronger_ends t q = (
    r,
    set_begin r.range.end other,
    no_physical_range,
    ground arith,
    record {
      valid_x = ground arith;
      valid_y = ground arith;
      valid_z = ground arith;
      apart_xy = λ a p. ground arith;
      apart_xz = λ a p. ground arith;
      apart_yz = λ a p. ground arith;
      keeps_strongest = λ a. ground arith;
    },
  )

  weaker_outlasts : r.type < other.type → other.range.end ≤ r.range.end → Outcome
  unfolding shatter_against strongest
  weaker_outlasts t q = (
    set_end other.range.begin r,
    other,
    record { range = record { begin = other.range.end; end = r.range.end }; type = r.type },
    ground arith,
    record {
      valid_x = ground arith;
      valid_y = ground arith;
      valid_z = ground arith;
      apart_xy = λ a p. ground arith;
      apart_xz = λ a p. ground arith;
      apart_yz = λ a p. ground arith;
      keeps_strongest = λ a. ground arith;
    },
  )

  weaker_ends : r.type < other.type → r.range.end < other.range.end → Outcome
  unfolding shatter_against strongest
  weaker_ends t q = (
    set_end other.range.begin r,
    other,
    no_physical_range,
    ground arith,
    record {
      valid_x = ground arith;
      valid_y = ground arith;
      valid_z = ground arith;
      apart_xy = λ a p. ground arith;
      apart_xz = λ a p. ground arith;
      apart_yz = λ a p. ground arith;
      keeps_strongest = λ a. ground arith;
    },
  )

-- Where the other range begins inside this one, shattering does not assert. The three ranges that it
-- gives are well formed and share no address, and at every address the strongest of
-- their types is the strongest of the types of the two ranges.
pub shatter_against_strongest :
    (r other : PhysicalRange)
    → IsValid r.range
    → IsValid other.range
    → In other.range.begin r.range
    → (x y z : PhysicalRange) × (shatter_against r other ≡ ok (x, y, z)) × Shattered r other x y z
shatter_against_strongest r other v w h = elim (compare-cases r.type other.type) [
  | inl t ↦ elim (dec_lt r.range.end other.range.end) [
    | yes q ↦ weaker_ends r other v w h t q
    | no q ↦ weaker_outlasts r other v w h t (omega arith)
  ]
  | inr (inl t) ↦ same_type r other v w h t
  | inr (inr t) ↦ elim (compare-cases other.range.end r.range.end) [
    | inl q ↦ stronger_outlasts r other v w h t q
    | inr (inl q) ↦ stronger_same_end r other v w h t q
    | inr (inr q) ↦ stronger_ends r other v w h t q
  ]
]
