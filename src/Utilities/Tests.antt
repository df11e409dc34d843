-- ===== src/Utilities/Tests.antt =====
-- Runs of the searches, and their theorems on an array of numbers.
use ultra_os.Common.{
  ℕ, zero, suc, ◌≤◌, ◌≡◌, refl, ltb, List, [], ◌∷◌, some, subst, All, get_elem?, arith,
}
use ultra_os.Utilities.{lower_bound, binary_search, insertion_sort}
use ultra_os.Utilities.Sort.{IsOrder}
use ultra_os.Utilities.Search.{IsOrdered}

abbrev numbers : List ℕ
numbers = 2 ∷ 5 ∷ 9 ∷ 14 ∷ []

lower_bound_between : lower_bound (ltb 6) (λ v. ltb v 6) numbers ≡ some 2
unfolding lower_bound
lower_bound_between = refl

lower_bound_behind : lower_bound (ltb 20) (λ v. ltb v 20) numbers ≡ some 4
unfolding lower_bound
lower_bound_behind = refl

binary_search_hit : binary_search (ltb 14) (λ v. ltb v 14) numbers ≡ some 3
unfolding binary_search
binary_search_hit = refl

binary_search_miss : binary_search (ltb 6) (λ v. ltb v 6) numbers ≡ some 4
unfolding binary_search
binary_search_miss = refl

get_elem?-All : (P : ℕ → Type 0) (xs : List ℕ) (i v : ℕ) → All P xs → get_elem? xs i ≡ some v → P v
get_elem?-All P [] i v a e = absurd (ground (arith, e))
get_elem?-All P (x ∷ xs) zero v a e = subst P (ground (arith, e)) a.0
get_elem?-All P (x ∷ xs) (suc i) v a e = get_elem?-All P xs i v a.1 e

unfoldable Ascending : List ℕ → Type 0
Ascending [] = Unit
Ascending (x ∷ xs) = All (λ y. x ≤ y) xs × Ascending xs

ascending :
    (xs : List ℕ) (i j v w : ℕ)
    → Ascending xs
    → i ≤ j
    → get_elem? xs i ≡ some v
    → get_elem? xs j ≡ some w
    → v ≤ w
unfolding Ascending
ascending [] i j v w a h p q = absurd (ground (arith, p))
ascending (x ∷ xs) zero zero v w a h p q = ground (arith, p, q)
ascending (x ∷ xs) zero (suc j) v w a h p q =
    let l : x ≤ w = get_elem?-All (λ y. x ≤ y) xs j w a.0 q in ground (arith, p, l)
ascending (x ∷ xs) (suc i) zero v w a h p q = absurd (omega arith)
ascending (x ∷ xs) (suc i) (suc j) v w a h p q = ascending xs i j v w a.1 (omega arith) p q

Ascending-IsOrdered :
    (xs : List ℕ) (key : ℕ) → Ascending xs → IsOrdered (λ v. ltb key v) (λ v. ltb v key) xs
Ascending-IsOrdered xs key a = record {
  upward = λ i j v w h p q k. ground (arith, ascending xs i j v w a h p q, k);
  downward = λ i j v w h p q k. ground (arith, ascending xs i j v w a h p q, k);
}

numbers-Ascending : Ascending numbers
unfolding Ascending
numbers-Ascending = (
  (omega arith, (omega arith, (omega arith, tt))),
  ((omega arith, (omega arith, tt)), ((omega arith, tt), (tt, tt))),
)

sorts : insertion_sort ltb (9 ∷ 2 ∷ 14 ∷ 5 ∷ 2 ∷ []) ≡ 2 ∷ 2 ∷ 5 ∷ 9 ∷ 14 ∷ []
unfolding insertion_sort
sorts = refl

ltb-IsOrder : IsOrder ltb
ltb-IsOrder = record {
  one_way = λ v w h. ground (arith, h);
  chain = λ v w x h k. ground (arith, h, k);
}
