-- ===== src/RedBlackTree/Places.antt =====
-- What a place of the tree says of the values in order.
use ultra_os.Common.{◌≡◌, refl, sym, List, [], ◌∷◌, ◌++◌, append-nil, append_assoc}
use ultra_os.RedBlackTree.{
  Tree, node, Ancestors, root, left_child, right_child, Place, plug, to_list,
}

module _ {ℓ} {A : Type ℓ} where
  -- The values in front of a subtree, and those behind it.
  unfoldable pub before : Ancestors A → List A
  before root = []
  before (left_child c v s p) = before p
  before (right_child c s v p) = before p ++ (to_list s ++ v ∷ [])

  unfoldable pub after : Ancestors A → List A
  after root = []
  after (left_child c v s p) = (v ∷ to_list s) ++ after p
  after (right_child c s v p) = after p

  pub to_list-plug :
      (t : Tree A) (p : Ancestors A) → to_list (plug t p) ≡ before p ++ (to_list t ++ after p)
  unfolding plug before after to_list
  to_list-plug t root = sym (append-nil (to_list t))
  to_list-plug t (left_child c v s p) = simp (to_list-plug (node c t v s) p, append_assoc) refl
  to_list-plug t (right_child c s v p) = simp (to_list-plug (node c s v t) p, append_assoc) refl

  -- The values in front of the node of a place, and behind it; and the whole tree.
  abbrev pub ahead : Place A → List A
  ahead z = before z.path ++ to_list z.left

  abbrev pub behind : Place A → List A
  behind z = to_list z.right ++ after z.path

  abbrev pub whole : Place A → Tree A
  whole z = plug (node z.color z.left z.value z.right) z.path

  pub to_list-whole : (z : Place A) → to_list (whole z) ≡ ahead z ++ z.value ∷ behind z
  unfolding to_list
  to_list-whole z =
      simp (to_list-plug (node z.color z.left z.value z.right) z.path, append_assoc) refl
