-- ===== src/Common/Tabulate.antt =====
-- The list of the values of a function at 0, 1, 2, ...
use Prim.Native.Nat.{ℕ, zero, suc, ◌+◌, ◌<◌}
use mathlib.Core.Path.{◌≡◌, refl, ap, ap₂, ◌∙◌}
use mathlib.Core.List.{List, [], ◌∷◌, ◌++◌}
use native.Mathlib.Omega.{arith}
use ultra_os.Common.Lists.{length, take, drop, get_or}

module _ {ℓ} {A : Type ℓ} where
  abbrev pub tabulate : ℕ → (ℕ → A) → List A
  tabulate zero f = []
  tabulate (suc n) f = f 0 ∷ tabulate n (λ i. f (suc i))

  pub length-tabulate : (n : ℕ) (f : ℕ → A) → length (tabulate n f) ≡ n
  length-tabulate zero f = refl
  length-tabulate (suc n) f = ap suc (length-tabulate n (λ i. f (suc i)))

  pub tabulate_ext :
      (n : ℕ) (f g : ℕ → A) → ((i : ℕ) → i < n → f i ≡ g i) → tabulate n f ≡ tabulate n g
  tabulate_ext zero f g h = refl
  tabulate_ext (suc n) f g h =
      ap₂ ◌∷◌ (h 0 (omega arith))
        (tabulate_ext n (λ i. f (suc i)) (λ i. g (suc i)) (λ i p. h (suc i) (omega arith)))

  pub tabulate-append :
      (m n : ℕ) (f : ℕ → A) → tabulate (m + n) f ≡ tabulate m f ++ tabulate n (λ i. f (m + i))
  tabulate-append zero n f =
      let e : zero + n ≡ n = omega arith in
      rw e (tabulate_ext n f (λ i. f (zero + i)) (λ i p. ap f (omega arith)))
  tabulate-append (suc m) n f =
      let e : suc m + n ≡ suc (m + n) = omega arith in
      rw e (
        ap (◌∷◌ (f 0)) (
          tabulate-append m n (λ i. f (suc i))
          ∙ ap (λ t. tabulate m (λ i. f (suc i)) ++ t)
              (tabulate_ext n (λ i. f (suc (m + i))) (λ i. f (suc m + i))
                (λ i p. ap f (omega arith)))))

  pub take-append_length : (xs ys : List A) (n : ℕ) → length xs ≡ n → take n (xs ++ ys) ≡ xs
  take-append_length [] ys zero e = refl
  take-append_length [] ys (suc n) e = absurd (omega arith)
  take-append_length (x ∷ xs) ys zero e = absurd (omega arith)
  take-append_length (x ∷ xs) ys (suc n) e = ap (◌∷◌ x) (take-append_length xs ys n (omega arith))

  pub drop-append_length : (xs ys : List A) (n : ℕ) → length xs ≡ n → drop n (xs ++ ys) ≡ ys
  drop-append_length [] ys zero e = refl
  drop-append_length [] ys (suc n) e = absurd (omega arith)
  drop-append_length (x ∷ xs) ys zero e = absurd (omega arith)
  drop-append_length (x ∷ xs) ys (suc n) e = drop-append_length xs ys n (omega arith)

  pub tabulate-get_or :
      (xs : List A) (n : ℕ) (d : A) → length xs ≡ n → tabulate n (λ i. get_or xs i d) ≡ xs
  tabulate-get_or [] zero d e = refl
  tabulate-get_or [] (suc n) d e = absurd (omega arith)
  tabulate-get_or (x ∷ xs) zero d e = absurd (omega arith)
  tabulate-get_or (x ∷ xs) (suc n) d e = ap (◌∷◌ x) (tabulate-get_or xs n d (omega arith))
