-- ===== src/RedBlackTree/Removal.antt =====
-- `remove_node` and the corrections after it. A leaf that is deleted stands in the tree until the correction
-- has used its place; here its place is that of the null node that it leaves, which is black like it.
use ultra_os.Common.{ℕ, zero, suc, ◌+◌, not, ◌&&◌, ◌||◌, if◌then◌else◌, Option, none, some}
use ultra_os.RedBlackTree.{
  Color, red, black, is_black_color, Tree, leaf, node, Ancestors, root, left_child, right_child,
  Place, is_black, blacken, plug, rotate_left, rotate_right, left_most,
}

module _ {ℓ} {A : Type ℓ} where
  -- `fix_double_black`, at the root of `t`; the cases in the order of the code.
  unfoldable pub fix_double_black : ℕ → Tree A → Ancestors A → Option (Tree A)
  fix_double_black zero t p = none
  fix_double_black (suc fuel) t root = some (blacken t)
  fix_double_black (suc fuel) t (left_child c v leaf p) =
      let case_3 = fix_double_black fuel (node c (blacken t) v leaf) p in
      if is_black_color c then case_3 else some (plug (node black (blacken t) v leaf) p)
  fix_double_black (suc fuel) t (right_child c leaf v p) =
      let case_3 = fix_double_black fuel (node c leaf v (blacken t)) p in
      if is_black_color c then case_3 else some (plug (node black leaf v (blacken t)) p)
  fix_double_black (suc fuel) t (left_child c v (node sc sl sv sr) p) =
      let case_2 = fix_double_black fuel t (left_child red v sl (left_child black sv sr p)) in
      let case_3 = fix_double_black fuel (node c (blacken t) v (node red sl sv sr)) p in
      let case_5 =
        fix_double_black fuel t (left_child c v (rotate_right (node red (blacken sl) sv sr)) p) in
      if is_black_color c && not (is_black_color sc) && is_black sl && is_black sr
      then case_2
      else if is_black_color c && is_black_color sc && is_black sl && is_black sr
      then case_3
      else if not (is_black_color c) && is_black_color sc && is_black sl && is_black sr
      then some (plug (node black (blacken t) v (node red sl sv sr)) p)
      else if is_black_color sc && not (is_black sl) && is_black sr
      then case_5
      else if is_black_color sc && not (is_black sr)
      then some (plug (rotate_left (node black (blacken t) v (node c sl sv (blacken sr)))) p)
      else none
  fix_double_black (suc fuel) t (right_child c (node sc sl sv sr) v p) =
      let case_2 = fix_double_black fuel t (right_child red sr v (right_child black sl sv p)) in
      let case_3 = fix_double_black fuel (node c (node red sl sv sr) v (blacken t)) p in
      let case_5 =
        fix_double_black fuel t (right_child c (rotate_left (node red sl sv (blacken sr))) v p) in
      if is_black_color c && not (is_black_color sc) && is_black sl && is_black sr
      then case_2
      else if is_black_color c && is_black_color sc && is_black sl && is_black sr
      then case_3
      else if not (is_black_color c) && is_black_color sc && is_black sl && is_black sr
      then some (plug (node black (node red sl sv sr) v (blacken t)) p)
      else if is_black_color sc && is_black sl && not (is_black sr)
      then case_5
      else if is_black_color sc && not (is_black sl)
      then some (plug (rotate_right (node black (node c (blacken sl) sv sr) v (blacken t))) p)
      else none

  abbrev pub depth : Ancestors A → ℕ
  depth root = 0
  depth (left_child c v s p) = depth p + 1
  depth (right_child c s v p) = depth p + 1

  -- Case 3 goes up by a node; case 2 makes the parent red, after which at most case 5 and another one follow.
  unfoldable pub fix_removal_violations_if_needed : Tree A → Color → Ancestors A → Option (Tree A)
  unfolding fix_double_black
  fix_removal_violations_if_needed child deleted_color p =
      if not (is_black child) || not (is_black_color deleted_color)
      then some (plug (blacken child) p)
      else fix_double_black (depth p + 4) child p

  -- A node with at most one child, which takes its place: of the root, and of any other.
  unfoldable pub remove_single : Color → Tree A → Ancestors A → Option (Tree A)
  unfolding fix_removal_violations_if_needed
  remove_single color child root = some (blacken child)
  remove_single color child (left_child c v s p) =
      fix_removal_violations_if_needed child color (left_child c v s p)
  remove_single color child (right_child c s v p) =
      fix_removal_violations_if_needed child color (right_child c s v p)

  -- `swap_node_with_successor`: the successor stands in the node's place, and the node in the place of the
  -- successor, each with the color of the place. Here the place that the node goes to.
  unfoldable pub swap_node_with_successor : Place A → Color → Tree A → A → Tree A → Place A
  unfolding left_most
  swap_node_with_successor z c l v r =
      let successor = left_most c l v r (right_child z.color z.left z.value z.path) in
      let place = left_most c l v r (right_child z.color z.left successor.value z.path) in
      record place { value = z.value }

  unfoldable pub remove_node : Place A → Option (Tree A)
  unfolding remove_single swap_node_with_successor
  remove_node z = elim z.left [
    | leaf ↦ remove_single z.color z.right z.path
    | node lc ll lv lr ↦ elim z.right [
      | leaf ↦ remove_single z.color (node lc ll lv lr) z.path
      | node rc rl rv rr ↦
          let z' = swap_node_with_successor z rc rl rv rr in remove_single z'.color z'.right z'.path
    ]
  ]
