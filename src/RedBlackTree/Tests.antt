-- ===== src/RedBlackTree/Tests.antt =====
-- Runs of the tree on numbers, and its theorems at a concrete container.
use ultra_os.Common.{
  ℕ, ◌≡◌, refl, ◌⊎◌, true, false, ltb, Option, none, some, List, [], ◌∷◌, ◌++◌, All, arith,
}
use ultra_os.Utilities.Sort.{IsOrder}
use ultra_os.RedBlackTree.{
  red, black, Tree, leaf, node, root, left_child, Place, place, Traits, to_list, lower_bound_node,
  inorder_successor_of,
}
use ultra_os.RedBlackTree.Places.{ahead, behind, whole}
use ultra_os.RedBlackTree.Order.{Lt}
use ultra_os.RedBlackTree.Search.{Hit, Miss, lower_bound_node_lem}
use ultra_os.RedBlackTree.Iterate.{inorder_successor_of_lem}
use ultra_os.RedBlackTree.Container.{RedBlackTree, emplace, remove}
use ultra_os.RedBlackTree.Ends.{IsValid, emplace_lem}
use ultra_os.RedBlackTree.ContainerRemove.{remove_lem}

abbrev numbers : Traits ℕ ℕ
numbers = record { comparator = ltb; extract_key = λ x. x }

abbrev empty : RedBlackTree ℕ
empty = record { top = leaf; smallest = none; greatest = none; size = 0 }

emplace_all : List ℕ → RedBlackTree ℕ → Option (RedBlackTree ℕ)
unfolding emplace
emplace_all [] tree = some tree
emplace_all (x ∷ xs) tree = elim (emplace numbers x tree) [
  | none ↦ none
  | some (tree', new) ↦ emplace_all xs tree'
]

remove_all : List ℕ → RedBlackTree ℕ → Option (RedBlackTree ℕ)
unfolding remove
remove_all [] tree = some tree
remove_all (x ∷ xs) tree = elim (remove numbers x tree) [
  | none ↦ none
  | some tree' ↦ remove_all xs tree'
]

run : List ℕ → List ℕ → Option (List ℕ × Option ℕ × Option ℕ × ℕ)
unfolding emplace_all remove_all to_list
run xs ys = elim (emplace_all xs empty) [
  | none ↦ none
  | some tree ↦ elim (remove_all ys tree) [
    | none ↦ none
    | some tree' ↦ some (to_list tree'.top, tree'.smallest, tree'.greatest, tree'.size)
  ]
]

sorted_run :
    run (5 ∷ 1 ∷ 9 ∷ 3 ∷ 7 ∷ 5 ∷ 2 ∷ 8 ∷ 4 ∷ 6 ∷ []) (5 ∷ 1 ∷ 12 ∷ 9 ∷ 2 ∷ 4 ∷ [])
    ≡ some (3 ∷ 6 ∷ 7 ∷ 8 ∷ [], some 3, some 8, 4)
unfolding run ultra_os.RedBlackTree.plug
sorted_run = refl

emptied_run : run (3 ∷ 1 ∷ 2 ∷ 4 ∷ []) (1 ∷ 2 ∷ 3 ∷ 4 ∷ []) ≡ some ([], none, none, 0)
unfolding run ultra_os.RedBlackTree.plug
emptied_run = refl

abbrev three : RedBlackTree ℕ
three = record {
  top = node black (node red leaf 2 leaf) 5 (node red leaf 9 leaf);
  smallest = some 2;
  greatest = some 9;
  size = 3;
}

ltb-IsOrder : IsOrder ltb
ltb-IsOrder = record {
  one_way = λ v w h. ground (arith, h);
  chain = λ v w x h k. ground (arith, h, k);
}

three-IsValid : IsValid numbers three
unfolding to_list
three-IsValid = record {
  red_black = record { colored = ground arith; balanced = ground arith; black_root = refl };
  ascending = ((refl, (refl, tt)), ((refl, tt), (tt, tt)));
  first = refl;
  last = refl;
  sized = refl;
}

emplace_lem_example :
    ((z : Place ℕ) × Hit numbers 7 three.top z × (emplace numbers 7 three ≡ some (three, false)))
    ⊎ ((tree' : RedBlackTree ℕ) × (front : List ℕ) × (back : List ℕ) × (emplace numbers 7 three
          ≡ some (tree', true))
        × IsValid numbers tree'
        × Miss numbers 7 (to_list three.top) front back
        × (to_list tree'.top ≡ front ++ 7 ∷ back))
emplace_lem_example = emplace_lem numbers 7 three ltb-IsOrder three-IsValid

remove_lem_example :
    ((z : Place ℕ) × (tree' : RedBlackTree ℕ) × Hit numbers 5 three.top z
      × (remove numbers 5 three ≡ some tree')
      × IsValid numbers tree'
      × (to_list tree'.top ≡ ahead z ++ behind z))
    ⊎ ((front : List ℕ) × (back : List ℕ) × Miss numbers 5 (to_list three.top) front back
        × (remove numbers 5 three ≡ some three))
remove_lem_example = remove_lem numbers 5 three ltb-IsOrder three-IsValid

lower_bound_node_lem_example :
    ((z : Place ℕ) × (lower_bound_node numbers 6 three.top ≡ some z)
      × (whole z ≡ three.top)
      × All (Lt numbers 6) (ahead z)
      × (ltb z.value 6 ≡ false))
    ⊎ ((lower_bound_node numbers 6 three.top ≡ none) × All (Lt numbers 6) (to_list three.top))
lower_bound_node_lem_example =
    lower_bound_node_lem numbers 6 three.top ltb-IsOrder three-IsValid.ascending

abbrev two : Place ℕ
two = place red leaf 2 leaf (left_child black 5 (node red leaf 9 leaf) root)

inorder_successor_of_lem_example :
    ((z' : Place ℕ) × (inorder_successor_of two ≡ some z')
      × (whole z' ≡ whole two)
      × (ahead z' ≡ ahead two ++ 2 ∷ [])
      × (z'.value ∷ behind z' ≡ behind two))
    ⊎ ((inorder_successor_of two ≡ none) × (behind two ≡ []))
inorder_successor_of_lem_example = inorder_successor_of_lem two
