-- ===== src/RedBlackTree/Ends.antt =====
-- The container's invariant, and `emplace` on the container.
use ultra_os.Common.{
  ◌+◌, ◌≡◌, refl, sym, ap, subst, ◌∙◌, ◌⊎◌, true, false, if◌then◌else◌, Option, none, some, List,
  [], ◌∷◌, ◌++◌, arith, inl, inr, All, All-append, All-of-append, append-nil, ◌≢◌, Option-cases,
  length,
}
use mathlib.Core.List.{head?}
use ultra_os.Utilities.Sort.{IsOrder}
use ultra_os.RedBlackTree.{Tree, leaf, node, Place, Traits, to_list}
use ultra_os.RedBlackTree.Places.{ahead, behind, to_list-whole}
use ultra_os.RedBlackTree.Order.{Lt, Gt, Ascending}
use ultra_os.RedBlackTree.Invariant.{IsRedBlack}
use ultra_os.RedBlackTree.Search.{Hit, Miss, find_node_lem}
use ultra_os.RedBlackTree.Emplace.{insert_node_lem}
use ultra_os.RedBlackTree.Container.{
  RedBlackTree, is_null, find, smallest_with, greatest_with, emplace,
}

module _ {ℓ} {A : Type ℓ} where
  abbrev pub last? : List A → Option A
  last? [] = none
  last? (x ∷ []) = some x
  last? (x ∷ y ∷ ys) = last? (y ∷ ys)

  pub length-insert :
      (value : A) (front back : List A)
      → length (front ++ value ∷ back) ≡ length (front ++ back) + 1
  length-insert value [] back = omega arith
  length-insert value (x ∷ front) back = omega (arith, length-insert value front back)

  pub last?-append : (xs : List A) (y : A) (ys : List A) → last? (xs ++ y ∷ ys) ≡ last? (y ∷ ys)
  last?-append [] y ys = refl
  last?-append (x ∷ []) y ys = refl
  last?-append (x ∷ z ∷ xs) y ys = last?-append (z ∷ xs) y ys

  pub last?-All {κ} :
      (P : A → Type κ) (x : A) (xs : List A)
      → All P (x ∷ xs)
      → (y : A) × (last? (x ∷ xs) ≡ some y) × P y
  last?-All P x [] a = (x, refl, a.0)
  last?-All P x (z ∷ xs) a = last?-All P z xs a.1

module _ {ℓ} {A : Type ℓ} where
  pub Tree-cases : (t : Tree A) → (t ≡ leaf) ⊎ (is_null t ≡ false)
  Tree-cases leaf = inl refl
  Tree-cases (node c l v r) = inr refl

module _ {ℓ κ} {A : Type ℓ} {K : Type κ} (traits : Traits A K) where
  -- The tree is red-black, its values ascend, and the ends and the size are those of the values.
  pub record IsValid (tree : RedBlackTree A) : Type ℓ where
    pub red_black : IsRedBlack tree.top
    pub ascending : Ascending traits (to_list tree.top)
    pub first : tree.smallest ≡ head? (to_list tree.top)
    pub last : tree.greatest ≡ last? (to_list tree.top)
    pub sized : tree.size ≡ length (to_list tree.top)

  pub Ascending-insert :
      (value : A) (front back : List A)
      → IsOrder traits.comparator
      → Ascending traits (front ++ back)
      → All (Lt traits (traits.extract_key value)) front
      → All (Gt traits (traits.extract_key value)) back
      → Ascending traits (front ++ value ∷ back)
  Ascending-insert value [] back o asc low high = (high, asc)
  Ascending-insert value (x ∷ front) back o asc low high =
      let (gt_front, gt_back) = All-of-append (Gt traits (traits.extract_key x)) front back asc.0 in
      (
        All-append (Gt traits (traits.extract_key x)) front (value ∷ back) gt_front
            (low.0, gt_back),
        Ascending-insert value front back o asc.1 low.1 high,
      )

  pub find_lem :
      (key : K) (tree : RedBlackTree A)
      → IsOrder traits.comparator
      → IsValid tree
      → ((z : Place A) × (find traits key tree ≡ some z) × Hit traits key tree.top z)
        ⊎ ((find traits key tree ≡ none)
            × (front : List A) × (back : List A) × Miss traits key (to_list tree.top) front back)
  unfolding find
  find_lem key tree o v = elim (find_node_lem traits key tree.top o v.ascending) [
    | inl (z, e, hit) ↦
        (let values = ap to_list (sym hit.inside) ∙ to_list-whole z in
          let some_value : tree.size ≢ 0 = λ q. absurd (
            omega
              (arith, q, v.sized, ap length values, length-insert z.value (ahead z) (behind z))) in
          let step : find traits key tree ≡ some z = ground (arith, e, some_value) in
          inl (z, step, hit))
    | inr (e, front, back, miss) ↦ inr (ground (arith, e), front, back, miss)
  ]

  smallest_with_lem :
      (value : A) (tree : RedBlackTree A) (front back : List A)
      → IsOrder traits.comparator
      → tree.smallest ≡ head? (front ++ back)
      → tree.greatest ≡ last? (front ++ back)
      → All (Lt traits (traits.extract_key value)) front
      → All (Gt traits (traits.extract_key value)) back
      → smallest_with traits value tree ≡ head? (front ++ value ∷ back)
  unfolding smallest_with
  smallest_with_lem value tree [] [] o s g low high = ground (arith, s, g)
  smallest_with_lem value tree [] (y ∷ back) o s g low high = ground (arith, s, g, high)
  smallest_with_lem value tree (x ∷ front) back o s g low high =
      ground (arith, s, g, low, o.one_way (traits.extract_key x) (traits.extract_key value))

  greatest_with_lem :
      (value : A) (tree : RedBlackTree A) (front back : List A)
      → IsOrder traits.comparator
      → tree.smallest ≡ head? (front ++ back)
      → tree.greatest ≡ last? (front ++ back)
      → All (Lt traits (traits.extract_key value)) front
      → All (Gt traits (traits.extract_key value)) back
      → greatest_with traits value tree ≡ last? (front ++ value ∷ back)
  unfolding greatest_with
  greatest_with_lem value tree [] [] o s g low high = ground (arith, s, g)
  greatest_with_lem value tree (x ∷ front) [] o s g low high =
      let (y, e, lt) = last?-All (Lt traits (traits.extract_key value)) x front low in
      let g' : tree.greatest ≡ some y = g ∙ ap last? (append-nil (x ∷ front)) ∙ e in
      let step : greatest_with traits value tree ≡ some value = ground (arith, g', lt) in
      step ∙ sym (last?-append (x ∷ front) value [])
  greatest_with_lem value tree front (y ∷ back) o s g low high =
      let (w, e, gt) = last?-All (Gt traits (traits.extract_key value)) y back high in
      let g' : tree.greatest ≡ some w = g ∙ last?-append front y back ∙ e in
      let step : greatest_with traits value tree ≡ some w = ground (
        arith,
        g',
        gt,
        o.one_way (traits.extract_key value) (traits.extract_key w),
        Option-cases tree.smallest,
      ) in
      step ∙ sym (last?-append front value (y ∷ back) ∙ e)

  sized_with :
      (tree : RedBlackTree A)
      → tree.size ≡ length (to_list tree.top)
      → (if is_null tree.top then 1 else tree.size + 1) ≡ length (to_list tree.top) + 1
  unfolding to_list
  sized_with tree e = elim (Tree-cases tree.top) [
    | inl empty ↦ rw empty (omega arith)
    | inr full ↦ rw full (ap (λ n. n + 1) e)
  ]

  emplaced :
      (value : A) (tree : RedBlackTree A) (front back : List A)
      → IsOrder traits.comparator
      → IsValid tree
      → find traits (traits.extract_key value) tree ≡ none
      → Miss traits (traits.extract_key value) (to_list tree.top) front back
      → (tree' : RedBlackTree A) × (front : List A) × (back : List A) × (emplace traits value tree
          ≡ some (tree', true))
        × IsValid tree'
        × Miss traits (traits.extract_key value) (to_list tree.top) front back
        × (to_list tree'.top ≡ front ++ value ∷ back)
  unfolding emplace
  emplaced value tree front back o v e miss =
      let fixed = insert_node_lem traits value tree.top front back o v.ascending v.red_black miss in
      let tree' : RedBlackTree A = record {
        top = fixed.tree;
        smallest = smallest_with traits value tree;
        greatest = greatest_with traits value tree;
        size = if is_null tree.top then 1 else tree.size + 1;
      } in
      (
        tree',
        front,
        back,
        rw (emplace, e, fixed.returns) refl,
        record {
          red_black = fixed.red_black;
          ascending = subst (Ascending traits) (sym fixed.same) (
              Ascending-insert value front back o (subst (Ascending traits) miss.parts v.ascending)
                miss.lower miss.upper);
          first =
              smallest_with_lem value tree front back o (v.first ∙ ap head? miss.parts)
                (v.last ∙ ap last? miss.parts) miss.lower miss.upper
              ∙ ap head? (sym fixed.same);
          last =
              greatest_with_lem value tree front back o (v.first ∙ ap head? miss.parts)
                (v.last ∙ ap last? miss.parts) miss.lower miss.upper
              ∙ ap last? (sym fixed.same);
          sized =
              sized_with tree v.sized
              ∙ ap (λ vs. length vs + 1) miss.parts
              ∙ sym (length-insert value front back)
              ∙ ap length (sym fixed.same);
        },
        miss,
        fixed.same,
      )

  -- On a valid container `emplace` returns. If there is a value with an equivalent key, nothing changes and the flag is
  -- false; if there is none, the flag is true, the container is valid again, and the values are the old ones
  -- with the new one in its place by the order.
  pub emplace_lem :
      (value : A) (tree : RedBlackTree A)
      → IsOrder traits.comparator
      → IsValid tree
      → ((z : Place A) × Hit traits (traits.extract_key value) tree.top z
          × (emplace traits value tree ≡ some (tree, false)))
        ⊎ ((tree' : RedBlackTree A) × (front : List A) × (back : List A) × (emplace traits value
                tree
              ≡ some (tree', true))
            × IsValid tree'
            × Miss traits (traits.extract_key value) (to_list tree.top) front back
            × (to_list tree'.top ≡ front ++ value ∷ back))
  unfolding emplace
  emplace_lem value tree o v = elim (find_lem (traits.extract_key value) tree o v) [
    | inl (z, e, hit) ↦ inl (z, hit, rw (emplace, e) refl)
    | inr (e, front, back, miss) ↦ inr (emplaced value tree front back o v e miss)
  ]
