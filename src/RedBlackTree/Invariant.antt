-- ===== src/RedBlackTree/Invariant.antt =====
-- The red-black invariant: no red node has a red child, the same number of black nodes on all ways down,
-- and a black root.
use ultra_os.Common.{ℕ, ◌+◌, ◌≡◌, Bool, true, ◌&&◌, ◌||◌, arith}
use ultra_os.RedBlackTree.{
  Color, red, black, is_black_color, Tree, leaf, node, Ancestors, root, left_child, right_child,
  is_black, parent_is_black, plug,
}

abbrev pub weight : Color → ℕ → ℕ
weight red n = n
weight black n = n + 1

module _ {ℓ} {A : Type ℓ} where
  -- The black nodes on the leftmost way down.
  abbrev pub black_height : Tree A → ℕ
  black_height leaf = 0
  black_height (node c l v r) = weight c (black_height l)

  -- A red node's children are black.
  abbrev pub children_fit : Color → Tree A → Tree A → Bool
  children_fit c l r = is_black_color c || (is_black l && is_black r)

  abbrev pub Colored : Tree A → Type 0
  Colored leaf = Unit
  Colored (node c l v r) = (children_fit c l r ≡ true) × Colored l × Colored r

  abbrev pub Balanced : Tree A → Type 0
  Balanced leaf = Unit
  Balanced (node c l v r) = (black_height l ≡ black_height r) × Balanced l × Balanced r

  pub record IsRedBlack (t : Tree A) : Type 0 where
    pub colored : Colored t
    pub balanced : Balanced t
    pub black_root : is_black t ≡ true

  -- What a subtree has to be, apart from its root.
  pub record IsSubtree (n : ℕ) (t : Tree A) : Type 0 where
    pub colored : Colored t
    pub balanced : Balanced t
    pub height : black_height t ≡ n

  -- A path that a subtree of black height `n` fits: the siblings are such subtrees, and a red node has a
  -- black sibling below it and a black parent.
  abbrev pub Fits : ℕ → Ancestors A → Type 0
  Fits n root = Unit
  Fits n (left_child c v s p) =
      IsSubtree n s
      × ((is_black_color c || (is_black s && parent_is_black p)) ≡ true)
      × Fits (weight c n) p
  Fits n (right_child c s v p) =
      IsSubtree n s
      × ((is_black_color c || (is_black s && parent_is_black p)) ≡ true)
      × Fits (weight c n) p

  -- A subtree in its place: it is black, or its parent is.
  pub plug-IsRedBlack :
      (n : ℕ) (t : Tree A) (p : Ancestors A)
      → IsSubtree n t
      → Fits n p
      → (is_black t || parent_is_black p) ≡ true
      → IsRedBlack (plug t p)
  unfolding plug
  plug-IsRedBlack n t root s f b = ground (arith, s, b)
  plug-IsRedBlack n t (left_child c v u p) s f b =
      plug-IsRedBlack (weight c n) (node c t v u) p
        (record {
          colored = ground (arith, s, f, b);
          balanced = ground (arith, s, f);
          height = ground (arith, s);
        })
        f.2 (ground (arith, f))
  plug-IsRedBlack n t (right_child c u v p) s f b =
      plug-IsRedBlack (weight c n) (node c u v t) p
        (record {
          colored = ground (arith, s, f, b);
          balanced = ground (arith, s, f);
          height = ground (arith, s, f);
        })
        f.2 (ground (arith, f))
