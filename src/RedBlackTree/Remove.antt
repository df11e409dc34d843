-- ===== src/RedBlackTree/Remove.antt =====
-- `remove_node` takes out the value of its node, and no other.
use ultra_os.Common.{
  ℕ, ◌+◌, ◌≡◌, refl, sym, ap, subst, ◌∙◌, true, ◌&&◌, ◌||◌, some, List, ◌∷◌, ◌++◌, append_assoc,
  append-nil, arith, Bool-cases, inl, inr,
}
use ultra_os.RedBlackTree.{
  Color, red, black, is_black_color, Tree, leaf, node, Ancestors, root, left_child, right_child,
  Place, place, is_black, blacken, parent_is_black, plug, to_list, left_most,
}
use ultra_os.RedBlackTree.Places.{before, after, ahead, behind, whole}
use ultra_os.RedBlackTree.Iterate.{left_most_lem}
use ultra_os.RedBlackTree.Invariant.{
  weight, black_height, IsRedBlack, IsSubtree, Fits, plug-IsRedBlack,
}
use ultra_os.RedBlackTree.Subtrees.{
  Fixed, plugged, elsewhere, blackened, to_list-blacken, blacken-black, blacken_same, cut,
}
use ultra_os.RedBlackTree.Removal.{
  depth, fix_removal_violations_if_needed, remove_single, swap_node_with_successor, remove_node,
}
use ultra_os.RedBlackTree.RemovalFix.{fix_double_black-Fixed, Enough-above}

module _ {ℓ} {A : Type ℓ} where
  -- A subtree that takes the place of its parent, which had the color `c`.
  fix_removal-Fixed :
      (n : ℕ) (c : Color) (child : Tree A) (p : Ancestors A)
      → IsSubtree n child
      → (is_black_color c || (is_black child && parent_is_black p)) ≡ true
      → Fits (weight c n) p
      → Fixed (before p ++ (to_list child ++ after p)) (fix_removal_violations_if_needed child c p)
  unfolding fix_removal_violations_if_needed
  fix_removal-Fixed n red child p s h f =
      let step : fix_removal_violations_if_needed child red p ≡ some (plug (blacken child) p) =
        ground arith in
      let bc : is_black child ≡ true = ground (arith, h) in
      rw (step, blacken_same child bc) (plugged n child p s f (ground (arith, bc)))
  fix_removal-Fixed n black child p s h f = elim (Bool-cases (is_black child)) [
    | inl bc ↦
        rw (fix_removal_violations_if_needed, bc)
          (fix_double_black-Fixed (depth p + 4) n child p s bc f
            (Enough-above (depth p + 4) p (omega arith)))
    | inr rc ↦
        rw (fix_removal_violations_if_needed, rc)
          (elsewhere _ _ _ (simp (to_list-blacken child) refl) (
            plugged (n + 1) (blacken child) p (blackened n child s rc) f
              (ground (arith, blacken-black child))))
  ]

  blacken-IsRedBlack : (n : ℕ) (t : Tree A) → IsSubtree n t → IsRedBlack (blacken t)
  blacken-IsRedBlack n leaf s = record { colored = tt; balanced = tt; black_root = refl }
  blacken-IsRedBlack n (node c l v r) s = record {
    colored = ground (arith, s);
    balanced = ground (arith, s);
    black_root = refl;
  }

  remove_single-Fixed :
      (n : ℕ) (c : Color) (child : Tree A) (p : Ancestors A)
      → IsSubtree n child
      → (is_black_color c || (is_black child && parent_is_black p)) ≡ true
      → Fits (weight c n) p
      → Fixed (before p ++ (to_list child ++ after p)) (remove_single c child p)
  unfolding remove_single before after
  remove_single-Fixed n c child root s h f = record {
    tree = blacken child;
    returns = refl;
    red_black = blacken-IsRedBlack n child s;
    same = to_list-blacken child ∙ sym (append-nil (to_list child));
  }
  remove_single-Fixed n c child (left_child d v u p) s h f =
      fix_removal-Fixed n c child (left_child d v u p) s h f
  remove_single-Fixed n c child (right_child d u v p) s h f =
      fix_removal-Fixed n c child (right_child d u v p) s h f

  left_most-leaf :
      (c : Color) (l : Tree A) (v : A) (r : Tree A) (p : Ancestors A)
      → (left_most c l v r p).left ≡ leaf
  unfolding left_most
  left_most-leaf c leaf v r p = refl
  left_most-leaf c (node d ll w lr) v r p = left_most-leaf d ll w lr (left_child c v r p)

  left_most-before :
      (c : Color) (l : Tree A) (v : A) (r : Tree A) (p : Ancestors A)
      → before (left_most c l v r p).path ≡ before p
  unfolding left_most before
  left_most-before c leaf v r p = refl
  left_most-before c (node d ll w lr) v r p = left_most-before d ll w lr (left_child c v r p)

  -- A node of a red-black tree with at most one child.
  remove_right :
      (c : Color) (v : A) (child : Tree A) (p : Ancestors A)
      → IsRedBlack (plug (node c leaf v child) p)
      → Fixed (before p ++ (to_list child ++ after p)) (remove_single c child p)
  remove_right c v child p r =
      let (n, s, f, b) = cut (node c leaf v child) p r in
      remove_single-Fixed (black_height child) c child p
        (record { colored = ground (arith, s); balanced = ground (arith, s); height = refl })
        (ground (arith, s, b)) (subst (λ k. Fits k p) (sym s.height ∙ ap (weight c) s.balanced.0) f)

  remove_left :
      (c : Color) (v : A) (child : Tree A) (p : Ancestors A)
      → IsRedBlack (plug (node c child v leaf) p)
      → Fixed (before p ++ (to_list child ++ after p)) (remove_single c child p)
  remove_left c v child p r =
      let (n, s, f, b) = cut (node c child v leaf) p r in
      remove_single-Fixed (black_height child) c child p
        (record { colored = ground (arith, s); balanced = ground (arith, s); height = refl })
        (ground (arith, s, b)) (subst (λ k. Fits k p) (sym s.height) f)

  revalue :
      (c : Color) (l : Tree A) (v w : A) (r : Tree A) (p : Ancestors A)
      → IsRedBlack (plug (node c l v r) p)
      → IsRedBlack (plug (node c l w r) p)
  revalue c l v w r p h =
      let (n, s, f, b) = cut (node c l v r) p h in
      plug-IsRedBlack n (node c l w r) p
        (record { colored = s.colored; balanced = s.balanced; height = s.height }) f b

  same_tail : (x y : A) (xs ys zs : List A) → x ∷ xs ≡ zs → y ∷ ys ≡ zs → y ∷ xs ≡ zs
  same_tail x y xs ys zs p q = ground (arith, p, q)

  -- A node with two children is taken out in the place of its successor.
  remove_inner :
      (c : Color) (l : Tree A) (v : A) (rc : Color) (rl : Tree A) (rv : A) (rr : Tree A)
      (p : Ancestors A)
      → IsRedBlack (plug (node c l v (node rc rl rv rr)) p)
      → let z' = swap_node_with_successor (place c l v (node rc rl rv rr) p) rc rl rv rr in
        Fixed
          ((before p ++ to_list l) ++ (to_list (node rc rl rv rr) ++ after p))
          (remove_single z'.color z'.right z'.path)
  unfolding swap_node_with_successor before after plug
  remove_inner c l v rc rl rv rr p r =
      let s = left_most rc rl rv rr (right_child c l v p) in
      let q : Ancestors A = right_child c l s.value p in
      let m = left_most rc rl rv rr q in
      let (inside, front, back) = left_most_lem rc rl rv rr q in
      let (inside', front', back') = left_most_lem rc rl rv rr (right_child c l v p) in
      let whole_m : IsRedBlack (plug (node m.color leaf m.value m.right) m.path) =
        subst (λ t. IsRedBlack (plug (node m.color t m.value m.right) m.path))
          (left_most-leaf rc rl rv rr q)
          (subst IsRedBlack (sym inside) (revalue c l v s.value (node rc rl rv rr) p r)) in
      let values =
        same_tail m.value s.value (behind m) (behind s) (to_list (node rc rl rv rr) ++ after p) back
          back' in
      elsewhere _ _ _
        (ap (λ xs. xs ++ behind m) (left_most-before rc rl rv rr q)
          ∙ simp append_assoc refl
          ∙ ap (λ xs. (before p ++ to_list l) ++ xs) values)
        (remove_right m.color m.value m.right m.path whole_m)

  remove_node-Fixed :
      (c : Color) (l : Tree A) (v : A) (r : Tree A) (p : Ancestors A)
      → IsRedBlack (plug (node c l v r) p)
      → let z = place c l v r p in Fixed (ahead z ++ behind z) (remove_node z)
  unfolding remove_node to_list
  remove_node-Fixed c leaf v r p h = elsewhere _ _ _ (simp append-nil refl) (remove_right c v r p h)
  remove_node-Fixed c (node lc ll lv lr) v leaf p h =
      elsewhere _ _ _ (simp append_assoc refl) (remove_left c v (node lc ll lv lr) p h)
  remove_node-Fixed c (node lc ll lv lr) v (node rc rl rv rr) p h =
      remove_inner c (node lc ll lv lr) v rc rl rv rr p h

  -- Removing a node of a red-black tree succeeds and gives a red-black tree with the values in front of the node and
  -- those behind it, in their order.
  pub remove_node_lem :
      (z : Place A)
      → IsRedBlack (whole z)
      → (t : Tree A) × (remove_node z ≡ some t) × IsRedBlack t × (to_list t ≡ ahead z ++ behind z)
  remove_node_lem z r =
      let fixed = remove_node-Fixed z.color z.left z.value z.right z.path r in
      (fixed.tree, fixed.returns, fixed.red_black, fixed.same)
