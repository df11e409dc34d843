-- ===== src/RedBlackTree/Insertion.antt =====
-- `fix_insertion_violations_if_needed`, and the descent of `emplace`.
use ultra_os.Common.{◌||◌, if◌then◌else◌, Option, none, some}
use ultra_os.RedBlackTree.{
  Color, red, black, is_black_color, Tree, leaf, node, Ancestors, root, left_child, right_child,
  Traits, is_black, blacken, plug, rotate_left, rotate_right,
}

module _ {ℓ} {A : Type ℓ} where
  -- The color of a grandparent whose children are made black: the root keeps its own.
  abbrev pub grandparent_color : Color → Ancestors A → Color
  grandparent_color c root = c
  grandparent_color c (left_child d v s p) = red
  grandparent_color c (right_child d s v p) = red

  -- `LEFT_LEFT`, on the subtree at the grandparent: the colors, and the rotation. The node is red.
  abbrev pub fix_left_left : Tree A → A → Tree A → Tree A
  fix_left_left parent gv aunt = rotate_right (node red (blacken parent) gv aunt)

  abbrev pub fix_right_right : Tree A → A → Tree A → Tree A
  fix_right_right parent gv aunt = rotate_left (node red aunt gv (blacken parent))

  -- The loop, at the node that is the root of `t`. After a rotation the node is the former grandparent
  -- under the black parent, where the loop ends. A red node without a grandparent fails an assertion.
  unfoldable pub fix_insertion_violations_if_needed : Tree A → Ancestors A → Option (Tree A)
  fix_insertion_violations_if_needed t root = some t
  fix_insertion_violations_if_needed t (left_child c v s root) =
      if is_black_color c || is_black t then some (plug t (left_child c v s root)) else none
  fix_insertion_violations_if_needed t (right_child c s v root) =
      if is_black_color c || is_black t then some (plug t (right_child c s v root)) else none
  fix_insertion_violations_if_needed t (left_child c v s (left_child gc gv aunt p)) =
      let onward =
        fix_insertion_violations_if_needed
          (node (grandparent_color gc p) (node black t v s) gv (blacken aunt)) p in
      if is_black_color c || is_black t
      then some (plug t (left_child c v s (left_child gc gv aunt p)))
      else if is_black aunt
      then some (plug (fix_left_left (node c t v s) gv aunt) p)
      else onward
  fix_insertion_violations_if_needed t (right_child c s v (left_child gc gv aunt p)) =
      let onward =
        fix_insertion_violations_if_needed
          (node (grandparent_color gc p) (node black s v t) gv (blacken aunt)) p in
      if is_black_color c || is_black t
      then some (plug t (right_child c s v (left_child gc gv aunt p)))
      else if is_black aunt
      then some (plug (fix_left_left (rotate_left (node c s v t)) gv aunt) p)
      else onward
  fix_insertion_violations_if_needed t (left_child c v s (right_child gc aunt gv p)) =
      let onward =
        fix_insertion_violations_if_needed
          (node (grandparent_color gc p) (blacken aunt) gv (node black t v s)) p in
      if is_black_color c || is_black t
      then some (plug t (left_child c v s (right_child gc aunt gv p)))
      else if is_black aunt
      then some (plug (fix_right_right (rotate_right (node c t v s)) gv aunt) p)
      else onward
  fix_insertion_violations_if_needed t (right_child c s v (right_child gc aunt gv p)) =
      let onward =
        fix_insertion_violations_if_needed
          (node (grandparent_color gc p) (blacken aunt) gv (node black s v t)) p in
      if is_black_color c || is_black t
      then some (plug t (right_child c s v (right_child gc aunt gv p)))
      else if is_black aunt
      then some (plug (fix_right_right (node c s v t) gv aunt) p)
      else onward

module _ {ℓ κ} {A : Type ℓ} {K : Type κ} (traits : Traits A K) where
  -- The `for (;;)` of `emplace`: the path of the new node.
  unfoldable pub descend : A → Tree A → Ancestors A → Ancestors A
  descend value leaf p = p
  descend value (node c l v r) p =
      let onward = descend value r (right_child c l v p) in
      let back = descend value l (left_child c v r p) in
      if traits.comparator (traits.extract_key v) (traits.extract_key value) then onward else back

  -- The new node is red, and black as the root.
  unfoldable pub insert_node : A → Tree A → Option (Tree A)
  unfolding descend fix_insertion_violations_if_needed
  insert_node value leaf = some (node black leaf value leaf)
  insert_node value (node c l v r) =
      fix_insertion_violations_if_needed (node red leaf value leaf)
        (descend value (node c l v r) root)
