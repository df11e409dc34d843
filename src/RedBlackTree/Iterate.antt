-- ===== src/RedBlackTree/Iterate.antt =====
-- The iterators: `++` and `--` go to the neighbours in order.
use ultra_os.Common.{
  ◌≡◌, refl, subst, sym, ◌∙◌, ◌⊎◌, inl, inr, List, [], ◌∷◌, ◌++◌, append-nil, append_assoc, Option,
  none, some,
}
use ultra_os.RedBlackTree.{
  Color, Tree, leaf, node, Ancestors, root, left_child, right_child, Place, place, plug, to_list,
  left_most, right_most, up_from_right, up_from_left, inorder_successor_of, inorder_predecessor_of,
}
use ultra_os.RedBlackTree.Places.{before, after, ahead, behind, whole}

module _ {ℓ} {A : Type ℓ} where
  -- The place in the tree `t` that the values `front` stand in front of and the values `back` behind; the end,
  -- if there is no value left.
  abbrev Next : Tree A → List A → List A → Option (Place A) → Type ℓ
  Next t front back o =
      ((z : Place A) × (o ≡ some z)
        × (whole z ≡ t)
        × (ahead z ≡ front)
        × (z.value ∷ behind z ≡ back))
      ⊎ ((o ≡ none) × (back ≡ []))

  pub left_most_lem :
      (c : Color) (l : Tree A) (v : A) (r : Tree A) (p : Ancestors A)
      → let z = left_most c l v r p in
        (whole z ≡ plug (node c l v r) p)
        × (ahead z ≡ before p)
        × (z.value ∷ behind z ≡ to_list (node c l v r) ++ after p)
  unfolding left_most plug before after to_list
  left_most_lem c leaf v r p = (refl, append-nil (before p), refl)
  left_most_lem c (node d ll w lr) v r p =
      let (inside, front, back) = left_most_lem d ll w lr (left_child c v r p) in
      (inside, front, back ∙ simp append_assoc refl)

  right_most_lem :
      (c : Color) (l : Tree A) (v : A) (r : Tree A) (p : Ancestors A)
      → let z = right_most c l v r p in
        (whole z ≡ plug (node c l v r) p)
        × (ahead z ++ z.value ∷ [] ≡ before p ++ to_list (node c l v r))
        × (behind z ≡ after p)
  unfolding right_most plug before after to_list
  right_most_lem c l v leaf p = (refl, append_assoc (before p) (to_list l) (v ∷ []), refl)
  right_most_lem c l v (node d rl w rr) p =
      let (inside, front, back) = right_most_lem d rl w rr (right_child c l v p) in
      (inside, front ∙ simp append_assoc refl, back)

  up_from_right_lem :
      (t : Tree A) (p : Ancestors A)
      → Next (plug t p) (before p ++ to_list t) (after p) (up_from_right t p)
  unfolding up_from_right plug before after to_list
  up_from_right_lem t root = inr (refl, refl)
  up_from_right_lem t (left_child c v s p) = inl (place c t v s p, refl, refl, refl, refl)
  up_from_right_lem t (right_child c s v p) =
      subst (λ front. Next (plug (node c s v t) p) front (after p) (up_from_right (node c s v t) p))
        (simp append_assoc refl) (up_from_right_lem (node c s v t) p)

  successor :
      (c : Color) (l : Tree A) (v : A) (r : Tree A) (p : Ancestors A)
      → let z = place c l v r p in
        Next (whole z) (ahead z ++ v ∷ []) (behind z) (inorder_successor_of z)
  unfolding inorder_successor_of plug before to_list after
  successor c l v leaf p =
      subst
        (λ front.
          Next (plug (node c l v leaf) p) front (after p) (up_from_right (node c l v leaf) p))
        (simp append_assoc refl) (up_from_right_lem (node c l v leaf) p)
  successor c l v (node d rl w rr) p =
      let (inside, front, back) = left_most_lem d rl w rr (right_child c l v p) in
      inl (
        left_most d rl w rr (right_child c l v p),
        refl,
        inside,
        front ∙ simp append_assoc refl,
        back,
      )

  -- `++` on the iterator at a node gives the next node in order: in front of it stand the values in front of the node
  -- and the node's own, and the values behind the node are its own and those behind it. It gives the
  -- end just when no value is behind.
  pub inorder_successor_of_lem :
      (z : Place A)
      → ((z' : Place A) × (inorder_successor_of z ≡ some z')
          × (whole z' ≡ whole z)
          × (ahead z' ≡ ahead z ++ z.value ∷ [])
          × (z'.value ∷ behind z' ≡ behind z))
        ⊎ ((inorder_successor_of z ≡ none) × (behind z ≡ []))
  inorder_successor_of_lem z = successor z.color z.left z.value z.right z.path

  -- The place with the value that `front` ends in, and `back` behind it; the end, if `front` is empty.
  abbrev Previous : Tree A → List A → List A → Option (Place A) → Type ℓ
  Previous t front back o =
      ((z : Place A) × (o ≡ some z)
        × (whole z ≡ t)
        × (ahead z ++ z.value ∷ [] ≡ front)
        × (behind z ≡ back))
      ⊎ ((o ≡ none) × (front ≡ []))

  up_from_left_lem :
      (t : Tree A) (p : Ancestors A)
      → Previous (plug t p) (before p) (to_list t ++ after p) (up_from_left t p)
  unfolding up_from_left plug before after to_list
  up_from_left_lem t root = inr (refl, refl)
  up_from_left_lem t (left_child c v s p) =
      subst
        (λ back. Previous (plug (node c t v s) p) (before p) back (up_from_left (node c t v s) p))
        (simp append_assoc refl) (up_from_left_lem (node c t v s) p)
  up_from_left_lem t (right_child c s v p) =
      inl (place c s v t p, refl, refl, append_assoc (before p) (to_list s) (v ∷ []), refl)

  predecessor :
      (c : Color) (l : Tree A) (v : A) (r : Tree A) (p : Ancestors A)
      → let z = place c l v r p in
        Previous (whole z) (ahead z) (v ∷ behind z) (inorder_predecessor_of z)
  unfolding inorder_predecessor_of plug after to_list before
  predecessor c leaf v r p =
      subst
        (λ front.
          Previous (plug (node c leaf v r) p) front (v ∷ (to_list r ++ after p))
            (up_from_left (node c leaf v r) p))
        (sym (append-nil (before p))) (up_from_left_lem (node c leaf v r) p)
  predecessor c (node d ll w lr) v r p =
      let (inside, front, back) = right_most_lem d ll w lr (left_child c v r p) in
      inl (right_most d ll w lr (left_child c v r p), refl, inside, front, back)

  -- `--` on the iterator at a node gives the node before it in order, or the end just when no value is in front.
  pub inorder_predecessor_of_lem :
      (z : Place A)
      → ((z' : Place A) × (inorder_predecessor_of z ≡ some z')
          × (whole z' ≡ whole z)
          × (ahead z' ++ z'.value ∷ [] ≡ ahead z)
          × (behind z' ≡ z.value ∷ behind z))
        ⊎ ((inorder_predecessor_of z ≡ none) × (ahead z ≡ []))
  inorder_predecessor_of_lem z = predecessor z.color z.left z.value z.right z.path
