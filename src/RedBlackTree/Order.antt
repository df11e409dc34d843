-- ===== src/RedBlackTree/Order.antt =====
-- The order of the values, by the comparator of the traits on their keys.
use ultra_os.Common.{
  ◌≡◌, Bool, true, false, List, [], ◌∷◌, ◌++◌, All, All-append, All-of-append, arith, Bool-cases,
  inl, inr,
}
use ultra_os.RedBlackTree.{Traits}
use ultra_os.Utilities.Sort.{IsOrder}

module _ {ℓ κ} {A : Type ℓ} {K : Type κ} (traits : Traits A K) where
  -- The key of the value is before `key`, and the other way round.
  abbrev pub Lt : K → A → Type 0
  Lt key v = traits.comparator (traits.extract_key v) key ≡ true

  abbrev pub Gt : K → A → Type 0
  Gt key v = traits.comparator key (traits.extract_key v) ≡ true

  -- Neither is before the other.
  abbrev pub IsEquivalent : K → A → Type 0
  IsEquivalent key v =
      (traits.comparator (traits.extract_key v) key ≡ false)
      × (traits.comparator key (traits.extract_key v) ≡ false)

  -- The key of each value is before those of all that follow.
  abbrev pub Ascending : List A → Type 0
  Ascending [] = Unit
  Ascending (x ∷ xs) = All (Gt (traits.extract_key x)) xs × Ascending xs

module _ {κ} {K : Type κ} {comparator : K → K → Bool} (o : IsOrder comparator) where
  pub lt_of_lt_le :
      (a b c : K) → comparator a b ≡ true → comparator c b ≡ false → comparator a c ≡ true
  lt_of_lt_le a b c p q = elim (Bool-cases (comparator a c)) [
    | inl h ↦ h
    | inr h ↦ absurd (ground (arith, p, o.chain b c a q h))
  ]

  pub lt_of_le_lt :
      (a b c : K) → comparator b a ≡ false → comparator b c ≡ true → comparator a c ≡ true
  lt_of_le_lt a b c p q = elim (Bool-cases (comparator a c)) [
    | inl h ↦ h
    | inr h ↦ absurd (ground (arith, q, o.chain c a b h p))
  ]

  pub lt_trans : (a b c : K) → comparator a b ≡ true → comparator b c ≡ true → comparator a c ≡ true
  lt_trans a b c p q = lt_of_lt_le a b c p (o.one_way b c q)

module _ {ℓ κ} {A : Type ℓ} {K : Type κ} (traits : Traits A K) where
  pub Ascending-split :
      (xs : List A) (x : A) (ys : List A)
      → Ascending traits (xs ++ x ∷ ys)
      → Ascending traits xs
        × All (Lt traits (traits.extract_key x)) xs
        × All (Gt traits (traits.extract_key x)) ys
        × Ascending traits ys
  Ascending-split [] x ys (gt, asc) = (tt, tt, gt, asc)
  Ascending-split (y ∷ xs) x ys (gt, asc) =
      let (asc_xs, lt, gt_ys, asc_ys) = Ascending-split xs x ys asc in
      let (gt_xs, gt_rest) = All-of-append (Gt traits (traits.extract_key y)) xs (x ∷ ys) gt in
      ((gt_xs, asc_xs), (gt_rest.0, lt), gt_ys, asc_ys)

  pub Ascending-join :
      (xs ys : List A)
      → Ascending traits xs
      → Ascending traits ys
      → All (λ x. All (Gt traits (traits.extract_key x)) ys) xs
      → Ascending traits (xs ++ ys)
  Ascending-join [] ys p q h = q
  Ascending-join (x ∷ xs) ys p q h =
      (All-append (Gt traits (traits.extract_key x)) xs ys p.0 h.0, Ascending-join xs ys p.1 q h.1)
