-- ===== src/RedBlackTree/Emplace.antt =====
-- The descent of `emplace` and the correction: the value goes where the search did not find it.
use ultra_os.Common.{
  ℕ, ◌≡◌, refl, sym, ap₂, subst, ◌∙◌, true, false, ◌||◌, List, [], ◌∷◌, ◌++◌, append_assoc,
  append-nil, arith, Bool-cases, inl, inr, All, All-append, All-map,
}
use ultra_os.Utilities.Sort.{IsOrder}
use ultra_os.RedBlackTree.{
  Color, red, black, Tree, leaf, node, Ancestors, root, left_child, right_child, Traits, is_black,
  parent_is_black, plug, to_list,
}
use ultra_os.RedBlackTree.Places.{before, after}
use ultra_os.RedBlackTree.Order.{Lt, Gt, Ascending, Ascending-split, lt_of_lt_le}
use ultra_os.RedBlackTree.Invariant.{black_height, IsRedBlack, IsSubtree, Fits}
use ultra_os.RedBlackTree.Subtrees.{Fixed, elsewhere, cut}
use ultra_os.RedBlackTree.Insertion.{descend, insert_node, fix_insertion_violations_if_needed}
use ultra_os.RedBlackTree.InsertionFix.{fix_insertion-Fixed, not_root}
use ultra_os.RedBlackTree.Search.{Miss}

module _ {ℓ κ} {A : Type ℓ} {K : Type κ} (traits : Traits A K) where
  -- The path of the new node: the tree is there, with the leaf, and the values are parted by the order.
  record Descent (value : A) (values : List A) (p : Ancestors A) : Type ℓ where
    fits : Fits 0 p
    parts : values ≡ before p ++ after p
    lower : All (Lt traits (traits.extract_key value)) (before p)
    upper :
        All
          (λ v. traits.comparator (traits.extract_key v) (traits.extract_key value) ≡ false)
          (after p)

  not_before :
      {key : K} (v : A) (xs : List A)
      → IsOrder traits.comparator
      → traits.comparator (traits.extract_key v) key ≡ false
      → All (Gt traits (traits.extract_key v)) xs
      → All (λ x. traits.comparator (traits.extract_key x) key ≡ false) xs
  not_before {key} v xs o le h =
      All-map xs
        (λ x p.
          o.chain key (traits.extract_key v) (traits.extract_key x) le
            (o.one_way (traits.extract_key v) (traits.extract_key x) p))
        h

  all_before :
      {key : K} (v : A) (xs : List A)
      → IsOrder traits.comparator
      → traits.comparator (traits.extract_key v) key ≡ true
      → All (Lt traits (traits.extract_key v)) xs
      → All (Lt traits key) xs
  all_before {key} v xs o lt h =
      All-map xs
        (λ x p.
          lt_of_lt_le o (traits.extract_key x) (traits.extract_key v) key p
            (o.one_way (traits.extract_key v) key lt))
        h

  descend-Descent :
      (value : A) (n : ℕ) (t : Tree A) (p : Ancestors A)
      → IsOrder traits.comparator
      → Ascending traits (to_list t)
      → IsSubtree n t
      → Fits n p
      → ((is_black t || parent_is_black p) ≡ true)
      → All (Lt traits (traits.extract_key value)) (before p)
      → All
          (λ v. traits.comparator (traits.extract_key v) (traits.extract_key value) ≡ false)
          (after p)
      → Descent value (before p ++ (to_list t ++ after p)) (descend traits value t p)
  unfolding descend before after to_list
  descend-Descent value n leaf p o asc s f b low high = record {
    fits = subst (λ k. Fits k p) (sym s.height) f;
    parts = refl;
    lower = low;
    upper = high;
  }
  descend-Descent value n (node c l v r) p o asc s f b low high =
      let key = traits.extract_key value in
      let (asc_l, lt, gt, asc_r) = Ascending-split traits (to_list l) v (to_list r) asc in
      elim (Bool-cases (traits.comparator (traits.extract_key v) key)) [
        | inl less ↦
            rw (descend, less)
              (subst (λ vs. Descent value vs (descend traits value r (right_child c l v p)))
                (simp append_assoc refl)
                (descend-Descent value (black_height r) r (right_child c l v p) o asc_r
                  (record {
                    colored = ground (arith, s);
                    balanced = ground (arith, s);
                    height = refl;
                  })
                  (
                    record {
                      colored = ground (arith, s);
                      balanced = ground (arith, s);
                      height = ground (arith, s);
                    },
                    ground (arith, s, b),
                    subst (λ k. Fits k p) (ground (arith, s)) f,
                  )
                  (ground (arith, s))
                  (All-append (Lt traits key) (before p) (to_list l ++ v ∷ []) low (
                    All-append (Lt traits key) (to_list l) (v ∷ [])
                      (all_before v (to_list l) o less lt) (less, tt)))
                  high))
        | inr ge ↦
            rw (descend, ge)
              (subst (λ vs. Descent value vs (descend traits value l (left_child c v r p)))
                (simp append_assoc refl)
                (descend-Descent value (black_height l) l (left_child c v r p) o asc_l
                  (record {
                    colored = ground (arith, s);
                    balanced = ground (arith, s);
                    height = refl;
                  })
                  (
                    record {
                      colored = ground (arith, s);
                      balanced = ground (arith, s);
                      height = ground (arith, s);
                    },
                    ground (arith, s, b),
                    subst (λ k. Fits k p) (sym s.height) f,
                  )
                  (ground (arith, s)) low
                  (All-append (λ x. traits.comparator (traits.extract_key x) key ≡ false)
                    (v ∷ to_list r) (after p) (ge, not_before v (to_list r) o ge gt) high)))
      ]

  le_of_gt :
      (value : A) (xs : List A)
      → IsOrder traits.comparator
      → All (Gt traits (traits.extract_key value)) xs
      → All (λ v. traits.comparator (traits.extract_key v) (traits.extract_key value) ≡ false) xs
  le_of_gt value xs o =
      All-map xs (λ x p. o.one_way (traits.extract_key value) (traits.extract_key x) p)

  -- One way only to part the values into those before a key and the others.
  parted :
      (key : K) (xs ys front back : List A)
      → xs ++ ys ≡ front ++ back
      → All (Lt traits key) xs
      → All (λ v. traits.comparator (traits.extract_key v) key ≡ false) ys
      → All (Lt traits key) front
      → All (λ v. traits.comparator (traits.extract_key v) key ≡ false) back
      → (xs ≡ front) × (ys ≡ back)
  parted key [] ys [] back e a b c d = (refl, e)
  parted key [] [] (z ∷ front) back e a b c d = absurd (ground (arith, e))
  parted key [] (y ∷ ys) (z ∷ front) back e a b c d = absurd (ground (arith, e, b, c))
  parted key (x ∷ xs) ys [] [] e a b c d = absurd (ground (arith, e))
  parted key (x ∷ xs) ys [] (z ∷ back) e a b c d = absurd (ground (arith, e, a, d))
  parted key (x ∷ xs) ys (z ∷ front) back e a b c d =
      let head : x ≡ z = ground (arith, e) in
      let (same, rest) = parted key xs ys front back (ground (arith, e)) a.1 b c.1 d in
      (ap₂ ◌∷◌ head same, rest)

  insert_node-Descent :
      (value : A) (t : Tree A) (p : Ancestors A)
      → Descent value (to_list t) p
      → not_root p ≡ true
      → Fixed
          (before p ++ value ∷ after p)
          (fix_insertion_violations_if_needed (node red leaf value leaf) p)
  unfolding to_list
  insert_node-Descent value t p d n =
      fix_insertion-Fixed 0 (node red leaf value leaf) p
        (record { colored = ground arith; balanced = ground arith; height = refl }) d.fits
        (ground (arith, n))

  descend-not_root :
      (value : A) (t : Tree A) (p : Ancestors A)
      → not_root p ≡ true
      → not_root (descend traits value t p) ≡ true
  unfolding descend
  descend-not_root value leaf p h = h
  descend-not_root value (node c l v r) p h = ground (
    arith,
    descend-not_root value r (right_child c l v p) refl,
    descend-not_root value l (left_child c v r p) refl,
  )

  descend_inside :
      (value : A) (c : Color) (l : Tree A) (v : A) (r : Tree A)
      → not_root (descend traits value (node c l v r) root) ≡ true
  unfolding descend
  descend_inside value c l v r = ground (
    arith,
    descend-not_root value r (right_child c l v root) refl,
    descend-not_root value l (left_child c v r root) refl,
  )

  -- In a red-black tree whose values ascend and do not have the key, a value goes in between those before it and
  -- those after it, and the result is a red-black tree.
  pub insert_node_lem :
      (value : A) (t : Tree A) (front back : List A)
      → IsOrder traits.comparator
      → Ascending traits (to_list t)
      → IsRedBlack t
      → Miss traits (traits.extract_key value) (to_list t) front back
      → Fixed (front ++ value ∷ back) (insert_node traits value t)
  unfolding insert_node before after plug to_list
  insert_node_lem value leaf front back o asc r m =
      let (e, f) =
        parted (traits.extract_key value) [] [] front back m.parts tt tt m.lower
          (le_of_gt value back o m.upper) in
      elsewhere _ _ _ (ap₂ (λ xs ys. xs ++ value ∷ ys) e f) (record {
        tree = node black leaf value leaf;
        returns = refl;
        red_black = record { colored = ground arith; balanced = ground arith; black_root = refl };
        same = refl;
      })
  insert_node_lem value (node c l v r) front back o asc rb m =
      let t = node c l v r in
      let (n, s, f, b) = cut t root rb in
      let d : Descent value (to_list t) (descend traits value t root) =
        subst (λ vs. Descent value vs (descend traits value t root)) (append-nil (to_list t))
          (descend-Descent value n t root o asc s f b tt tt) in
      let (e, g) =
        parted (traits.extract_key value) (before (descend traits value t root))
          (after (descend traits value t root)) front back (sym d.parts ∙ m.parts) d.lower d.upper
          m.lower (le_of_gt value back o m.upper) in
      elsewhere _ _ _ (ap₂ (λ xs ys. xs ++ value ∷ ys) e g)
        (insert_node-Descent value t (descend traits value t root) d (descend_inside value c l v r))
