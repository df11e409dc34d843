-- ===== src/RedBlackTree/Subtrees.antt =====
-- Subtrees of a red-black tree, and what a correction has to come back with.
use ultra_os.Common.{
  ℕ, ◌+◌, ◌≡◌, refl, sym, subst, true, false, ◌&&◌, ◌||◌, Option, some, List, ◌++◌, arith,
}
use ultra_os.RedBlackTree.{
  Color, red, black, Tree, leaf, node, Ancestors, root, left_child, right_child, is_black, blacken,
  parent_is_black, plug, to_list,
}
use ultra_os.RedBlackTree.Places.{before, after, to_list-plug}
use ultra_os.RedBlackTree.Invariant.{
  weight, black_height, IsRedBlack, IsSubtree, Fits, plug-IsRedBlack,
}

module _ {ℓ} {A : Type ℓ} where
  -- The result is a red-black tree with the values that were there.
  pub record Fixed (values : List A) (o : Option (Tree A)) : Type ℓ where
    pub tree : Tree A
    pub returns : o ≡ some tree
    pub red_black : IsRedBlack tree
    pub same : to_list tree ≡ values

  pub plugged :
      (n : ℕ) (t : Tree A) (p : Ancestors A)
      → IsSubtree n t
      → Fits n p
      → (is_black t || parent_is_black p) ≡ true
      → Fixed (before p ++ (to_list t ++ after p)) (some (plug t p))
  plugged n t p s f b = record {
    tree = plug t p;
    returns = refl;
    red_black = plug-IsRedBlack n t p s f b;
    same = to_list-plug t p;
  }

  pub elsewhere :
      (values values' : List A) (o : Option (Tree A))
      → values ≡ values'
      → Fixed values o
      → Fixed values' o
  elsewhere values values' o e = subst (λ vs. Fixed vs o) e

  pub raised :
      (n : ℕ) (l r : Tree A) (y : A)
      → IsSubtree n l
      → IsSubtree n r
      → IsSubtree (n + 1) (node black l y r)
  raised n l r y p q = record {
    colored = ground (arith, p, q);
    balanced = ground (arith, p, q);
    height = ground (arith, p);
  }

  pub lowered :
      (n : ℕ) (l r : Tree A) (y : A)
      → IsSubtree n l
      → IsSubtree n r
      → (is_black l && is_black r) ≡ true
      → IsSubtree n (node red l y r)
  lowered n l r y p q h = record {
    colored = ground (arith, p, q, h);
    balanced = ground (arith, p, q);
    height = ground (arith, p);
  }

  pub blackened :
      (n : ℕ) (t : Tree A) → IsSubtree n t → is_black t ≡ false → IsSubtree (n + 1) (blacken t)
  blackened n leaf s h = absurd (ground (arith, h))
  blackened n (node black l v r) s h = absurd (ground (arith, h))
  blackened n (node red l v r) s h = record {
    colored = ground (arith, s);
    balanced = ground (arith, s);
    height = ground (arith, s);
  }

  pub recolored :
      (n : ℕ) (c : Color) (l r : Tree A) (y : A)
      → IsSubtree (n + 1) l
      → IsSubtree (n + 1) r
      → (is_black l && is_black r) ≡ true
      → IsSubtree (weight c (n + 1)) (node c l y r)
  recolored n red l r y p q h = lowered (n + 1) l r y p q h
  recolored n black l r y p q h = raised (n + 1) l r y p q

  pub blacken-black : (t : Tree A) → is_black (blacken t) ≡ true
  blacken-black leaf = refl
  blacken-black (node c l v r) = refl

  pub to_list-blacken : (t : Tree A) → to_list (blacken t) ≡ to_list t
  unfolding to_list
  to_list-blacken leaf = refl
  to_list-blacken (node c l v r) = refl

  pub blacken_same : (t : Tree A) → is_black t ≡ true → blacken t ≡ t
  blacken_same leaf h = refl
  blacken_same (node black l v r) h = refl
  blacken_same (node red l v r) h = absurd (ground (arith, h))

  pub children_of_black :
      (n : ℕ) (l r : Tree A) (v : A)
      → IsSubtree (n + 1) (node black l v r)
      → IsSubtree n l × IsSubtree n r
  children_of_black n l r v s = (
    record {
      colored = ground (arith, s);
      balanced = ground (arith, s);
      height = ground (arith, s);
    },
    record {
      colored = ground (arith, s);
      balanced = ground (arith, s);
      height = ground (arith, s);
    },
  )

  pub children_of_red :
      (n : ℕ) (l r : Tree A) (v : A)
      → IsSubtree n (node red l v r)
      → IsSubtree n l × IsSubtree n r × (is_black l ≡ true) × (is_black r ≡ true)
  children_of_red n l r v s = (
    record {
      colored = ground (arith, s);
      balanced = ground (arith, s);
      height = ground (arith, s);
    },
    record {
      colored = ground (arith, s);
      balanced = ground (arith, s);
      height = ground (arith, s);
    },
    ground (arith, s),
    ground (arith, s),
  )

  -- A subtree of a red-black tree, and what is around it.
  pub cut :
      (t : Tree A) (p : Ancestors A)
      → IsRedBlack (plug t p)
      → (n : ℕ) × IsSubtree n t × Fits n p × ((is_black t || parent_is_black p) ≡ true)
  unfolding plug
  cut t root r = (
    black_height t,
    record { colored = r.colored; balanced = r.balanced; height = refl },
    tt,
    ground (arith, r),
  )
  cut t (left_child c v u p) r =
      let (n, s, f, b) = cut (node c t v u) p r in
      (
        black_height t,
        record { colored = ground (arith, s); balanced = ground (arith, s); height = refl },
        (
          record {
            colored = ground (arith, s);
            balanced = ground (arith, s);
            height = ground (arith, s);
          },
          ground (arith, s, b),
          subst (λ k. Fits k p) (sym s.height) f,
        ),
        ground (arith, s),
      )
  cut t (right_child c u v p) r =
      let (n, s, f, b) = cut (node c u v t) p r in
      (
        black_height t,
        record { colored = ground (arith, s); balanced = ground (arith, s); height = refl },
        (
          record {
            colored = ground (arith, s);
            balanced = ground (arith, s);
            height = ground (arith, s);
          },
          ground (arith, s, b),
          subst (λ k. Fits k p) (ground (arith, s)) f,
        ),
        ground (arith, s),
      )
