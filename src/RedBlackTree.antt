-- ===== src/RedBlackTree.antt =====
-- Kernel/Common/RedBlackTree.h: the ordered tree behind `Set` and `Map`. A pointer to a node is the
-- place of the node in the tree: the node, and the path from it up to the root, which is what its
-- parent pointers lead through. `none` as a place is the super root, `end()`; `none` as the result of
-- an operation is a failed assertion. Memory is not modelled: a node is the value that it holds.
pub mod Places
pub mod Invariant
pub mod Order
pub mod Search
pub mod Iterate
pub mod Insertion
pub mod InsertionFix
pub mod Subtrees
pub mod Removal
pub mod RemovalFix
pub mod Emplace
pub mod Remove
pub mod Container
pub mod Ends
pub mod ContainerRemove
mod Tests
use ultra_os.Common.{
  Bool, true, false, not, ◌&&◌, if◌then◌else◌, Option, none, some, List, [], ◌∷◌, ◌++◌, ℕ, suc, ◌+◌,
}

pub data Color : Type 0 where
  red black : Color

abbrev pub is_black_color : Color → Bool
is_black_color red = false
is_black_color black = true

pub data Tree {ℓ} (A : Type ℓ) : Type ℓ where
  leaf : Tree A
  node : Color → Tree A → A → Tree A → Tree A

-- Whether a node is the left or the right child of its parent, with the parent's color and value, the
-- sibling, and the path of the parent.
pub data Ancestors {ℓ} (A : Type ℓ) : Type ℓ where
  root : Ancestors A
  left_child : Color → A → Tree A → Ancestors A → Ancestors A
  right_child : Color → Tree A → A → Ancestors A → Ancestors A

-- A pointer to a node.
pub record Place {ℓ} (A : Type ℓ) : Type ℓ where
  pub color : Color
  pub left : Tree A
  pub value : A
  pub right : Tree A
  pub path : Ancestors A

-- `Traits`: the comparator, and the key of a value.
pub record Traits {ℓ κ} (A : Type ℓ) (K : Type κ) : Type (ℓ ⊔ κ) where
  pub comparator : K → K → Bool
  pub extract_key : A → K

module _ {ℓ} {A : Type ℓ} where
  -- Null nodes are black.
  abbrev pub is_black : Tree A → Bool
  is_black leaf = true
  is_black (node c l v r) = is_black_color c

  abbrev pub blacken : Tree A → Tree A
  blacken leaf = leaf
  blacken (node c l v r) = node black l v r

  abbrev pub parent_is_black : Ancestors A → Bool
  parent_is_black root = false
  parent_is_black (left_child c v s p) = is_black_color c
  parent_is_black (right_child c s v p) = is_black_color c

  abbrev pub place : Color → Tree A → A → Tree A → Ancestors A → Place A
  place c l v r p = record { color = c; left = l; value = v; right = r; path = p }

  -- The whole tree around a subtree: its root.
  unfoldable pub plug : Tree A → Ancestors A → Tree A
  plug t root = t
  plug t (left_child c v s p) = plug (node c t v s) p
  plug t (right_child c s v p) = plug (node c s v t) p

  -- The values in order.
  unfoldable pub to_list : Tree A → List A
  to_list leaf = []
  to_list (node c l v r) = to_list l ++ v ∷ to_list r

  -- `rotate_left` and `rotate_right`, of a node that has the child which they raise.
  abbrev pub rotate_left : Tree A → Tree A
  rotate_left leaf = leaf
  rotate_left (node c a x leaf) = node c a x leaf
  rotate_left (node c a x (node d b y e)) = node d (node c a x b) y e

  abbrev pub rotate_right : Tree A → Tree A
  rotate_right leaf = leaf
  rotate_right (node c leaf x e) = node c leaf x e
  rotate_right (node c (node d a y b) x e) = node d a y (node c b x e)

  -- `while (node->left) node = node->left`, and its mirror image.
  unfoldable pub left_most : Color → Tree A → A → Tree A → Ancestors A → Place A
  left_most c leaf v r p = place c leaf v r p
  left_most c (node d ll w lr) v r p = left_most d ll w lr (left_child c v r p)

  unfoldable pub right_most : Color → Tree A → A → Tree A → Ancestors A → Place A
  right_most c l v leaf p = place c l v leaf p
  right_most c l v (node d rl w rr) p = right_most d rl w rr (right_child c l v p)

  -- `while (!parent->is_null() && node->is_right_child())`: up to the parent of a left child.
  unfoldable pub up_from_right : Tree A → Ancestors A → Option (Place A)
  up_from_right t root = none
  up_from_right t (left_child c v s p) = some (place c t v s p)
  up_from_right t (right_child c s v p) = up_from_right (node c s v t) p

  unfoldable pub up_from_left : Tree A → Ancestors A → Option (Place A)
  up_from_left t root = none
  up_from_left t (left_child c v s p) = up_from_left (node c t v s) p
  up_from_left t (right_child c s v p) = some (place c s v t p)

  unfoldable pub inorder_successor_of : Place A → Option (Place A)
  unfolding left_most up_from_right
  inorder_successor_of z = elim z.right [
    | leaf ↦ up_from_right (node z.color z.left z.value leaf) z.path
    | node c l v r ↦ some (left_most c l v r (right_child z.color z.left z.value z.path))
  ]

  unfoldable pub inorder_predecessor_of : Place A → Option (Place A)
  unfolding right_most up_from_left
  inorder_predecessor_of z = elim z.left [
    | leaf ↦ up_from_left (node z.color leaf z.value z.right) z.path
    | node c l v r ↦ some (right_most c l v r (left_child z.color z.value z.right z.path))
  ]

module _ {ℓ κ} {A : Type ℓ} {K : Type κ} (traits : Traits A K) where
  -- The `while` loops go down from a node with its path; `result` is the node that they keep.
  unfoldable pub find_from : K → Tree A → Ancestors A → Option (Place A)
  find_from key leaf p = none
  find_from key (node c l v r) p =
      let onward = find_from key r (right_child c l v p) in
      let back = find_from key l (left_child c v r p) in
      if traits.comparator (traits.extract_key v) key
      then onward
      else if traits.comparator key (traits.extract_key v)
      then back
      else some (place c l v r p)

  unfoldable pub lower_bound_from : K → Tree A → Ancestors A → Option (Place A) → Option (Place A)
  lower_bound_from key leaf p result = result
  lower_bound_from key (node c l v r) p result =
      let onward = lower_bound_from key r (right_child c l v p) result in
      let back = lower_bound_from key l (left_child c v r p) (some (place c l v r p)) in
      if traits.comparator (traits.extract_key v) key then onward else back

  unfoldable pub upper_bound_from : K → Tree A → Ancestors A → Option (Place A) → Option (Place A)
  upper_bound_from key leaf p result = result
  upper_bound_from key (node c l v r) p result =
      let back = upper_bound_from key l (left_child c v r p) (some (place c l v r p)) in
      let onward = upper_bound_from key r (right_child c l v p) result in
      if traits.comparator key (traits.extract_key v) then back else onward

  unfoldable pub find_node : K → Tree A → Option (Place A)
  unfolding find_from
  find_node key t = find_from key t root

  unfoldable pub lower_bound_node : K → Tree A → Option (Place A)
  unfolding lower_bound_from
  lower_bound_node key t = lower_bound_from key t root none

  unfoldable pub upper_bound_node : K → Tree A → Option (Place A)
  unfolding upper_bound_from
  upper_bound_node key t = upper_bound_from key t root none
