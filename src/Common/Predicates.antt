-- ===== src/Common/Predicates.antt =====
-- Predicates that hold of all elements of a list, or of one; both compute to tuples and sums.
use mathlib.Core.Path.{◌≡◌}
use mathlib.Core.Logic.{◌⊎◌, ◌↔◌, inl, inr}
use mathlib.Core.List.{List, [], ◌∷◌, ◌++◌}

module _ {ℓ κ} {A : Type ℓ} where
  abbrev pub All : (A → Type κ) → List A → Type κ
  All P [] = Unit
  All P (x ∷ xs) = P x × All P xs

abbrev pub Any {ℓ} : {A : Type ℓ} → (A → Type 0) → List A → Type 0
Any P [] = ⊥
Any P (x ∷ xs) = P x ⊎ Any P xs

-- The element itself stands in the list.
abbrev pub Elem : {A : Type 0} → A → List A → Type 0
Elem a = Any (λ x. x ≡ a)

module _ {ℓ κ κ'} {A : Type ℓ} {P : A → Type κ} {Q : A → Type κ'} where
  pub All-map : (xs : List A) → ((x : A) → P x → Q x) → All P xs → All Q xs
  All-map [] f h = tt
  All-map (x ∷ xs) f h = (f x h.0, All-map xs f h.1)

module _ {ℓ κ κ' κ''} {A : Type ℓ} {P : A → Type κ} {Q : A → Type κ'} {R : A → Type κ''} where
  pub All-map₂ : (xs : List A) → ((x : A) → P x → Q x → R x) → All P xs → All Q xs → All R xs
  All-map₂ [] f h k = tt
  All-map₂ (x ∷ xs) f h k = (f x h.0 k.0, All-map₂ xs f h.1 k.1)

module _ {ℓ κ κ' κ'' μ} {A : Type ℓ} {P : A → Type κ} {Q : A → Type κ'} {R : A → Type κ''}
    {S : A → Type μ} where
  pub All-map₃ :
      (xs : List A) → ((x : A) → P x → Q x → R x → S x) → All P xs → All Q xs → All R xs → All S xs
  All-map₃ [] f h k m = tt
  All-map₃ (x ∷ xs) f h k m = (f x h.0 k.0 m.0, All-map₃ xs f h.1 k.1 m.1)

pub Any-append :
    {A : Type 0} (P : A → Type 0) (xs ys : List A) → Any P (xs ++ ys) ↔ (Any P xs ⊎ Any P ys)
Any-append P [] ys = (inr, λ h. elim h [ inl x ↦ absurd x | inr y ↦ y ])
Any-append P (x ∷ xs) ys =
    let (f, g) = Any-append P xs ys in
    (
      λ h. elim h [
        | inl a ↦ inl (inl a)
        | inr b ↦ elim (f b) [ inl c ↦ inl (inr c) | inr d ↦ inr d ]
      ],
      λ h. elim h [
        | inl a ↦ elim a [ inl b ↦ inl b | inr c ↦ inr (g (inl c)) ]
        | inr b ↦ inr (g (inr b))
      ],
    )

pub All-append {ℓ κ} :
    {A : Type ℓ} (P : A → Type κ) (xs ys : List A) → All P xs → All P ys → All P (xs ++ ys)
All-append P [] ys h k = k
All-append P (x ∷ xs) ys h k = (h.0, All-append P xs ys h.1 k)

pub All-of-append {ℓ κ} :
    {A : Type ℓ} (P : A → Type κ) (xs ys : List A) → All P (xs ++ ys) → All P xs × All P ys
All-of-append P [] ys h = (tt, h)
All-of-append P (x ∷ xs) ys h =
    let (front, back) = All-of-append P xs ys h.1 in ((h.0, front), back)
