-- ===== src/RedBlackTree/ContainerRemove.antt =====
-- `remove` on the container.
use ultra_os.Common.{
  ℕ, ◌+◌, ◌≡◌, ◌≢◌, refl, sym, ap, subst, ◌∙◌, ◌⊎◌, true, false, ◌==◌, if◌then◌else◌, some, List,
  [], ◌∷◌, ◌++◌, arith, Bool-cases, inl, inr, All, All-append, All-of-append, length, append-nil,
  append_assoc, append-cons_ne,
}
use mathlib.Core.List.{head?}
use ultra_os.Utilities.Sort.{IsOrder}
use ultra_os.RedBlackTree.{
  Color, red, black, Tree, leaf, node, Ancestors, root, left_child, right_child, Place, place, plug,
  Traits, to_list, inorder_predecessor_of,
}
use ultra_os.RedBlackTree.Places.{before, after, ahead, behind, whole, to_list-whole}
use ultra_os.RedBlackTree.Order.{Lt, Gt, Ascending, Ascending-split}
use ultra_os.RedBlackTree.Invariant.{black_height, Colored, Balanced, IsRedBlack}
use ultra_os.RedBlackTree.Search.{Hit, Miss}
use ultra_os.RedBlackTree.Iterate.{inorder_successor_of_lem, inorder_predecessor_of_lem}
use ultra_os.RedBlackTree.Remove.{remove_node_lem}
use ultra_os.RedBlackTree.Container.{
  RedBlackTree, value_of, is_root, is_null, is_node, size_without, ends_without, remove_at, remove,
}
use ultra_os.RedBlackTree.Ends.{last?, last?-append, last?-All, length-insert, IsValid, find_lem}

module _ {ℓ} {A : Type ℓ} where
  -- A subtree of black height 0 under a leaf's sibling is a leaf or a red node of two leaves.
  single :
      (t : Tree A)
      → black_height t ≡ 0
      → Colored t
      → Balanced t
      → length (to_list t) ≡ (if is_null t then 0 else 1)
  unfolding to_list
  single leaf h c b = refl
  single (node black l v r) h c b = absurd (omega (arith, h))
  single (node red leaf v leaf) h c b = refl
  single (node red (node red a x d) v r) h c b = absurd (ground (arith, c))
  single (node red (node black a x d) v r) h c b = absurd (omega (arith, h))
  single (node red leaf v (node red a x d)) h c b = absurd (ground (arith, c))
  single (node red leaf v (node black a x d)) h c b = absurd (omega (arith, b))

  not_alone :
      (c : Color) (l : Tree A) (v : A) (r : Tree A) (p : Ancestors A)
      → is_root p ≡ false
      → ((before p ++ to_list l) ++ (to_list r ++ after p)) ≢ []
  unfolding before after
  not_alone c l v r root h e = absurd (ground (arith, h))
  not_alone c l v r (left_child d w s p) h e =
      append-cons_ne ((before p ++ to_list l) ++ to_list r) w (to_list s ++ after p)
        (append_assoc (before p ++ to_list l) (to_list r) (w ∷ (to_list s ++ after p)) ∙ e)
  not_alone c l v r (right_child d s w p) h e =
      append-cons_ne (before p ++ to_list s) w (to_list l ++ (to_list r ++ after p))
        (simp append_assoc refl ∙ e)

  size_of :
      (c : Color) (l : Tree A) (v : A) (r : Tree A) (p : Ancestors A) (size : ℕ)
      → IsRedBlack (plug (node c l v r) p)
      → let z = place c l v r p in
        size ≡ length (ahead z ++ behind z) + 1 → size_without z size ≡ length (ahead z ++ behind z)
  unfolding size_without before after plug to_list
  size_of c leaf v r root size h e =
      sym (single r (ground (arith, h)) (ground (arith, h)) (ground (arith, h)))
      ∙ ap length (sym (append-nil (to_list r)))
  size_of c (node lc ll lv lr) v leaf root size h e =
      sym (single (node lc ll lv lr) (ground (arith, h)) (ground (arith, h)) (ground (arith, h)))
      ∙ ap length (sym (append-nil (to_list (node lc ll lv lr))))
  size_of c (node lc ll lv lr) v (node rc rl rv rr) root size h e = omega (arith, e)
  size_of c l v r (left_child d w s p) size h e = omega (arith, e)
  size_of c l v r (right_child d s w p) size h e = omega (arith, e)

  pub size_without_lem :
      (z : Place A) (size : ℕ)
      → IsRedBlack (whole z)
      → size ≡ length (to_list (whole z))
      → size_without z size ≡ length (ahead z ++ behind z)
  unfolding size_without
  size_without_lem z size r e =
      let values : size ≡ length (ahead z ++ behind z) + 1 =
        e ∙ ap length (to_list-whole z) ∙ length-insert z.value (ahead z) (behind z) in
      size_of z.color z.left z.value z.right z.path size r values

module _ {ℓ κ} {A : Type ℓ} {K : Type κ} (traits : Traits A K) where
  one_node : (v : A) → IsOrder traits.comparator → is_node traits v (some v) ≡ true
  one_node v o = ground (arith, o.one_way (traits.extract_key v) (traits.extract_key v))

  ends_lem :
      (z : Place A) (tree : RedBlackTree A) (front back : List A)
      → IsOrder traits.comparator
      → ahead z ≡ front
      → behind z ≡ back
      → tree.smallest ≡ head? (front ++ z.value ∷ back)
      → tree.greatest ≡ last? (front ++ z.value ∷ back)
      → tree.size ≡ length (front ++ back) + 1
      → All (Lt traits (traits.extract_key z.value)) front
      → All (Gt traits (traits.extract_key z.value)) back
      → (is_root z.path ≡ false → front ++ back ≢ [])
      → ((ends_without traits z tree).0 ≡ head? (front ++ back))
        × ((ends_without traits z tree).1 ≡ last? (front ++ back))
  unfolding ends_without
  ends_lem z tree [] [] o ea eb first last sized low high inner =
      elim (Bool-cases (is_root z.path)) [
        | inl r ↦ (ground (arith, r, sized), ground (arith, r, sized))
        | inr r ↦ absurd (inner r refl)
      ]
  ends_lem z tree [] (y ∷ back) o ea eb first last sized low high inner =
      let same = one_node z.value o in
      elim (inorder_successor_of_lem z) [
        | inl (z', e, inside, front, rest) ↦
            (let next : z'.value ≡ y = ground (arith, rest ∙ eb) in
              (
                ground (arith, first, sized, same, e, next),
                ground (arith, first, last, sized, same),
              ))
        | inr (e, none_behind) ↦ absurd (ground (arith, sym none_behind ∙ eb))
      ]
  ends_lem z tree (x ∷ front) [] o ea eb first last sized low high inner =
      let same = one_node z.value o in
      let greatest : tree.greatest ≡ some z.value = last ∙ last?-append (x ∷ front) z.value [] in
      let size : (tree.size == 1) ≡ false = ground (arith, sized) in
      elim (inorder_predecessor_of_lem z) [
        | inl (z', e, inside, rest, back) ↦
            (let next : last? (x ∷ front) ≡ some z'.value =
                ap last? (sym (rest ∙ ea)) ∙ last?-append (ahead z') z'.value [] in
              let ends : ends_without traits z tree
                  ≡ (tree.smallest, value_of (inorder_predecessor_of z)) =
                ground (arith, first, size, same, greatest, low.0) in
              (
                ap (λ ends. ends.0) ends ∙ first,
                ap (λ ends. ends.1) ends
                    ∙ ap value_of e
                    ∙ sym (ap last? (append-nil (x ∷ front)) ∙ next),
              ))
        | inr (e, none_ahead) ↦ absurd (ground (arith, sym none_ahead ∙ ea))
      ]
  ends_lem z tree (x ∷ front) (y ∷ back) o ea eb first last sized low high inner =
      let (w, e, gt) = last?-All (Gt traits (traits.extract_key z.value)) y back high in
      let greatest : tree.greatest ≡ some w =
        last ∙ last?-append (x ∷ front) z.value (y ∷ back) ∙ e in
      let size : (tree.size == 1) ≡ false = ground (arith, sized) in
      let ends : ends_without traits z tree ≡ (tree.smallest, tree.greatest) =
        ground (arith, first, size, greatest, low.0, gt) in
      (
        ap (λ ends. ends.0) ends ∙ first,
        ap (λ ends. ends.1) ends ∙ greatest ∙ sym (last?-append (x ∷ front) y back ∙ e),
      )

  without-Ascending :
      (value : A) (front back : List A)
      → IsOrder traits.comparator
      → Ascending traits (front ++ value ∷ back)
      → Ascending traits (front ++ back)
  without-Ascending value [] back o asc = asc.1
  without-Ascending value (x ∷ front) back o asc =
      let (gt_front, gt_rest) =
        All-of-append (Gt traits (traits.extract_key x)) front (value ∷ back) asc.0 in
      (
        All-append (Gt traits (traits.extract_key x)) front back gt_front gt_rest.1,
        without-Ascending value front back o asc.1,
      )

  -- Removing a node of a valid container succeeds, the container is valid again, its ends and its size
  -- included, and its values are those in front of the node and those behind it.
  pub remove_at_lem :
      (z : Place A) (tree : RedBlackTree A)
      → IsOrder traits.comparator
      → IsValid traits tree
      → whole z ≡ tree.top
      → (tree' : RedBlackTree A) × (remove_at traits z tree ≡ some tree')
        × IsValid traits tree'
        × (to_list tree'.top ≡ ahead z ++ behind z)
  unfolding remove_at
  remove_at_lem z tree o v inside =
      let (top, returns, red_black, values) =
        remove_node_lem z (subst IsRedBlack (sym inside) v.red_black) in
      let old : to_list tree.top ≡ ahead z ++ z.value ∷ behind z =
        ap to_list (sym inside) ∙ to_list-whole z in
      let asc = subst (Ascending traits) old v.ascending in
      let (asc_front, low, high, asc_back) =
        Ascending-split traits (ahead z) z.value (behind z) asc in
      let sized : tree.size ≡ length (ahead z ++ behind z) + 1 =
        v.sized ∙ ap length old ∙ length-insert z.value (ahead z) (behind z) in
      let (first, last) =
        ends_lem z tree (ahead z) (behind z) o refl refl (v.first ∙ ap head? old)
          (v.last ∙ ap last? old) sized low high
          (not_alone z.color z.left z.value z.right z.path) in
      (
        record {
          top = top;
          smallest = (ends_without traits z tree).0;
          greatest = (ends_without traits z tree).1;
          size = size_without z tree.size;
        },
        rw (remove_at, returns) refl,
        record {
          red_black = red_black;
          ascending =
              subst (Ascending traits) (sym values)
                (without-Ascending z.value (ahead z) (behind z) o asc);
          first = first ∙ ap head? (sym values);
          last = last ∙ ap last? (sym values);
          sized =
              size_without_lem z tree.size (subst IsRedBlack (sym inside) v.red_black)
                (v.sized ∙ ap (λ t. length (to_list t)) (sym inside))
              ∙ ap length (sym values);
        },
        values,
      )

  -- On a valid container `remove` of a key succeeds. If a value has an equivalent key, the container is valid again
  -- and its values are those in front of that value and those behind it; if none has, nothing changes.
  pub remove_lem :
      (key : K) (tree : RedBlackTree A)
      → IsOrder traits.comparator
      → IsValid traits tree
      → ((z : Place A) × (tree' : RedBlackTree A) × Hit traits key tree.top z
          × (remove traits key tree ≡ some tree')
          × IsValid traits tree'
          × (to_list tree'.top ≡ ahead z ++ behind z))
        ⊎ ((front : List A) × (back : List A) × Miss traits key (to_list tree.top) front back
            × (remove traits key tree ≡ some tree))
  unfolding remove
  remove_lem key tree o v = elim (find_lem traits key tree o v) [
    | inl (z, e, hit) ↦
        (let (tree', returns, valid, values) = remove_at_lem z tree o v hit.inside in
          inl (z, tree', hit, rw (remove, e) returns, valid, values))
    | inr (e, front, back, miss) ↦ inr (front, back, miss, rw (remove, e) refl)
  ]
