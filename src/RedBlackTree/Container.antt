-- ===== src/RedBlackTree/Container.antt =====
-- The container of RedBlackTree.h as `Set` and `Map` use it, without equivalent keys: the root, the ends that
-- the super root remembers, and the size. A node is known by its key, of which there is one.
use ultra_os.Common.{
  ℕ, ◌+◌, ◌-◌, Bool, true, false, not, ◌&&◌, ◌==◌, if◌then◌else◌, Option, none, some,
}
use ultra_os.RedBlackTree.{
  Tree, leaf, node, Ancestors, root, left_child, right_child, Place, Traits, find_node,
  inorder_successor_of, inorder_predecessor_of,
}
use ultra_os.RedBlackTree.Insertion.{insert_node}
use ultra_os.RedBlackTree.Removal.{remove_node}

pub record RedBlackTree {ℓ} (A : Type ℓ) : Type ℓ where
  pub top : Tree A
  pub smallest : Option A
  pub greatest : Option A
  pub size : ℕ

module _ {ℓ} {A : Type ℓ} where
  abbrev pub value_of : Option (Place A) → Option A
  value_of none = none
  value_of (some z) = some z.value

  abbrev pub is_root : Ancestors A → Bool
  is_root root = true
  is_root (left_child c v s p) = false
  is_root (right_child c s v p) = false

  abbrev pub is_null : Tree A → Bool
  is_null leaf = true
  is_null (node c l v r) = false

  -- `m_size` after `remove_node`: it is 0 or 1 where the root had at most one child.
  unfoldable pub size_without : Place A → ℕ → ℕ
  size_without z size =
      if is_root z.path && is_null z.left
      then (if is_null z.right then 0 else 1)
      else if is_root z.path && is_null z.right
      then 1
      else size - 1

module _ {ℓ κ} {A : Type ℓ} {K : Type κ} (traits : Traits A K) where
  abbrev pub value_comparator : A → A → Bool
  value_comparator x y = traits.comparator (traits.extract_key x) (traits.extract_key y)

  abbrev pub is_node : A → Option A → Bool
  is_node v none = false
  is_node v (some w) = not (value_comparator v w) && not (value_comparator w v)

  unfoldable pub find : K → RedBlackTree A → Option (Place A)
  unfolding find_node
  find key tree = if tree.size == 0 then none else find_node traits key tree.top

  unfoldable pub contains : K → RedBlackTree A → Bool
  unfolding find
  contains key tree = elim (find key tree) [ none ↦ false | some z ↦ true ]

  -- The ends of the super root after `value` has come.
  unfoldable pub smallest_with : A → RedBlackTree A → Option A
  smallest_with value tree = elim tree.smallest [
    | none ↦ some value
    | some s ↦ if value_comparator value s then some value else elim tree.greatest [
      | none ↦ some s
      | some g ↦
          if not (value_comparator g value) && not (value_comparator s value)
          then some value
          else some s
    ]
  ]

  unfoldable pub greatest_with : A → RedBlackTree A → Option A
  greatest_with value tree = elim tree.greatest [
    | none ↦ some value
    | some g ↦ if value_comparator g value then some value else elim tree.smallest [
      | none ↦ some g
      | some s ↦
          if not (value_comparator value s) && not (value_comparator value g)
          then some value
          else some g
    ]
  ]

  -- `emplace` without duplicates; the flag says whether the value went in.
  unfoldable pub emplace : A → RedBlackTree A → Option (RedBlackTree A × Bool)
  unfolding insert_node find smallest_with greatest_with
  emplace value tree = elim (find (traits.extract_key value) tree) [
    | some location ↦ some (tree, false)
    | none ↦ elim (insert_node traits value tree.top) [
      | none ↦ none
      | some top ↦ some (
        record {
          top = top;
          smallest = smallest_with value tree;
          greatest = greatest_with value tree;
          size = if is_null tree.top then 1 else tree.size + 1;
        },
        true,
      )
    ]
  ]

  -- The ends of the super root when the node of `z` goes.
  unfoldable pub ends_without : Place A → RedBlackTree A → Option A × Option A
  unfolding inorder_successor_of inorder_predecessor_of
  ends_without z tree =
      if is_root z.path && tree.size == 1
      then (none, none)
      else if is_node z.value tree.smallest
      then (value_of (inorder_successor_of z), tree.greatest)
      else if is_node z.value tree.greatest
      then (tree.smallest, value_of (inorder_predecessor_of z))
      else (tree.smallest, tree.greatest)

  -- `remove(ConstIterator)`.
  unfoldable pub remove_at : Place A → RedBlackTree A → Option (RedBlackTree A)
  unfolding ends_without size_without remove_node
  remove_at z tree = elim (remove_node z) [
    | none ↦ none
    | some top ↦ some (record {
      top = top;
      smallest = (ends_without z tree).0;
      greatest = (ends_without z tree).1;
      size = size_without z tree.size;
    })
  ]

  unfoldable pub remove : K → RedBlackTree A → Option (RedBlackTree A)
  unfolding find remove_at
  remove key tree = elim (find key tree) [ none ↦ some tree | some z ↦ remove_at z tree ]
