-- ===== src/RedBlackTree/RemovalFix.antt =====
-- The correction after a removal keeps the values in order and restores the invariant.
use ultra_os.Common.{
  ℕ, zero, suc, ◌+◌, ◌≤◌, ◌≡◌, refl, sym, subst, true, false, some, ◌++◌, append_assoc, arith,
  Bool-cases, inl, inr,
}
use ultra_os.RedBlackTree.{
  Color, red, black, Tree, leaf, node, Ancestors, root, left_child, right_child, is_black, blacken,
  plug, to_list, rotate_left, rotate_right,
}
use ultra_os.RedBlackTree.Places.{before, after}
use ultra_os.RedBlackTree.Invariant.{weight, IsSubtree, Fits}
use ultra_os.RedBlackTree.Subtrees.{
  Fixed, plugged, elsewhere, raised, lowered, recolored, blackened, to_list-blacken, blacken-black,
  blacken_same, children_of_black, children_of_red,
}
use ultra_os.RedBlackTree.Removal.{fix_double_black, depth}

module _ {ℓ} {A : Type ℓ} where
  blacken-IsSubtree :
      (n : ℕ) (t : Tree A) → IsSubtree n t → is_black t ≡ true → IsSubtree n (blacken t)
  blacken-IsSubtree n t s h = subst (IsSubtree n) (sym (blacken_same t h)) s

  -- The cases with the node on the left: `inner` and `outer` are the nearer and the farther child of the sibling.
  left_case_6 :
      (fuel n : ℕ) (c : Color) (t inner outer : Tree A) (v sv : A) (p : Ancestors A)
      → IsSubtree n t
      → is_black t ≡ true
      → Fits (n + 1) (left_child c v (node black inner sv outer) p)
      → is_black outer ≡ false
      → Fixed
          (before (left_child c v (node black inner sv outer) p)
            ++ (to_list t ++ after (left_child c v (node black inner sv outer) p)))
          (fix_double_black (suc fuel) t (left_child c v (node black inner sv outer) p))
  unfolding fix_double_black before after to_list
  left_case_6 fuel n c t inner outer v sv p s b f h =
      let (si, so) = children_of_black n inner outer sv f.0 in
      let raised_sibling =
        rotate_left (node black (blacken t) v (node c inner sv (blacken outer))) in
      let step : fix_double_black (suc fuel) t (left_child c v (node black inner sv outer) p)
          ≡ some (plug raised_sibling p) =
        ground (arith, h) in
      rw step (
        elsewhere _ _ _ (simp (append_assoc, to_list-blacken t, to_list-blacken outer) refl) (
          plugged (weight c (n + 1)) raised_sibling p
            (recolored n c (node black (blacken t) v inner) (blacken outer) sv
              (raised n (blacken t) inner v (blacken-IsSubtree n t s b) si) (blackened n outer so h)
              (ground (arith, blacken-black outer)))
            f.2 (ground (arith, f))))

  left_case_5 :
      (fuel n : ℕ) (c : Color) (t inner outer : Tree A) (v sv : A) (p : Ancestors A)
      → IsSubtree n t
      → is_black t ≡ true
      → Fits (n + 1) (left_child c v (node black inner sv outer) p)
      → is_black inner ≡ false
      → is_black outer ≡ true
      → Fixed
          (before (left_child c v (node black inner sv outer) p)
            ++ (to_list t ++ after (left_child c v (node black inner sv outer) p)))
          (fix_double_black (suc (suc fuel)) t (left_child c v (node black inner sv outer) p))
  unfolding fix_double_black before after to_list
  left_case_5 fuel n c t leaf outer v sv p s b f h k = absurd (ground (arith, h))
  left_case_5 fuel n c t (node black il x ir) outer v sv p s b f h k = absurd (ground (arith, h))
  left_case_5 fuel n c t (node red il x ir) outer v sv p s b f h k =
      let (si, so) = children_of_black n (node red il x ir) outer sv f.0 in
      let (sl, sr, bl, br) = children_of_red n il ir x si in
      let sibling = (node black il x (node red ir sv outer)) in
      let path : Ancestors A = (left_child c v sibling p) in
      let step : fix_double_black (suc (suc fuel)) t
            (left_child c v (node black (node red il x ir) sv outer) p)
          ≡ fix_double_black (suc fuel) t path =
        ground (arith, k) in
      rw step (
        elsewhere _ _ _ (simp append_assoc refl) (
          left_case_6 fuel n c t il (node red ir sv outer) v x p s b
            (
              (raised n il (node red ir sv outer) x sl
                  (lowered n ir outer sv sr so (ground (arith, bl, br, k)))),
              ground (arith, f),
              f.2,
            )
            refl))

  -- The cases with the node on the right: `inner` and `outer` are the nearer and the farther child of the sibling.
  right_case_6 :
      (fuel n : ℕ) (c : Color) (t inner outer : Tree A) (v sv : A) (p : Ancestors A)
      → IsSubtree n t
      → is_black t ≡ true
      → Fits (n + 1) (right_child c (node black outer sv inner) v p)
      → is_black outer ≡ false
      → Fixed
          (before (right_child c (node black outer sv inner) v p)
            ++ (to_list t ++ after (right_child c (node black outer sv inner) v p)))
          (fix_double_black (suc fuel) t (right_child c (node black outer sv inner) v p))
  unfolding fix_double_black before after to_list
  right_case_6 fuel n c t inner outer v sv p s b f h =
      let (so, si) = children_of_black n outer inner sv f.0 in
      let raised_sibling =
        rotate_right (node black (node c (blacken outer) sv inner) v (blacken t)) in
      let step : fix_double_black (suc fuel) t (right_child c (node black outer sv inner) v p)
          ≡ some (plug raised_sibling p) =
        ground (arith, h) in
      rw step (
        elsewhere _ _ _ (simp (append_assoc, to_list-blacken t, to_list-blacken outer) refl) (
          plugged (weight c (n + 1)) raised_sibling p
            (recolored n c (blacken outer) (node black inner v (blacken t)) sv
              (blackened n outer so h) (raised n inner (blacken t) v si (blacken-IsSubtree n t s b))
              (ground (arith, blacken-black outer)))
            f.2 (ground (arith, f))))

  right_case_5 :
      (fuel n : ℕ) (c : Color) (t inner outer : Tree A) (v sv : A) (p : Ancestors A)
      → IsSubtree n t
      → is_black t ≡ true
      → Fits (n + 1) (right_child c (node black outer sv inner) v p)
      → is_black inner ≡ false
      → is_black outer ≡ true
      → Fixed
          (before (right_child c (node black outer sv inner) v p)
            ++ (to_list t ++ after (right_child c (node black outer sv inner) v p)))
          (fix_double_black (suc (suc fuel)) t (right_child c (node black outer sv inner) v p))
  unfolding fix_double_black before after to_list
  right_case_5 fuel n c t leaf outer v sv p s b f h k = absurd (ground (arith, h))
  right_case_5 fuel n c t (node black il x ir) outer v sv p s b f h k = absurd (ground (arith, h))
  right_case_5 fuel n c t (node red il x ir) outer v sv p s b f h k =
      let (so, si) = children_of_black n outer (node red il x ir) sv f.0 in
      let (sl, sr, bl, br) = children_of_red n il ir x si in
      let sibling = (node black (node red outer sv il) x ir) in
      let path : Ancestors A = (right_child c sibling v p) in
      let step : fix_double_black (suc (suc fuel)) t
            (right_child c (node black outer sv (node red il x ir)) v p)
          ≡ fix_double_black (suc fuel) t path =
        ground (arith, k) in
      rw step (
        elsewhere _ _ _ (simp append_assoc refl) (
          right_case_6 fuel n c t ir (node red outer sv il) v x p s b
            (
              (raised n (node red outer sv il) ir x
                  (lowered n outer il sv so sl (ground (arith, bl, br, k))) sr),
              ground (arith, f),
              f.2,
            )
            refl))

  -- The rounds that the place asks for: under a red node two, else one for each node above the parent and four more.
  abbrev pub Enough : ℕ → Ancestors A → Type 0
  Enough fuel root = 1 ≤ fuel
  Enough fuel (left_child red v s p) = 2 ≤ fuel
  Enough fuel (left_child black v s p) = depth p + 4 ≤ fuel
  Enough fuel (right_child red s v p) = 2 ≤ fuel
  Enough fuel (right_child black s v p) = depth p + 4 ≤ fuel

  pub Enough-above : (fuel : ℕ) (p : Ancestors A) → depth p + 3 ≤ fuel → Enough fuel p
  Enough-above fuel root h = omega arith
  Enough-above fuel (left_child red v s p) h = omega arith
  Enough-above fuel (left_child black v s p) h = omega arith
  Enough-above fuel (right_child red s v p) h = omega arith
  Enough-above fuel (right_child black s v p) h = omega arith

  -- A subtree that has a black node less than its place asks for is put right.
  pub fix_double_black-Fixed :
      (fuel n : ℕ) (t : Tree A) (p : Ancestors A)
      → IsSubtree n t
      → is_black t ≡ true
      → Fits (n + 1) p
      → Enough fuel p
      → Fixed (before p ++ (to_list t ++ after p)) (fix_double_black fuel t p)
  unfolding fix_double_black before after to_list plug
  fix_double_black-Fixed zero n t root s b f e = absurd (omega (arith, e))
  fix_double_black-Fixed zero n t (left_child red v u p) s b f e = absurd (omega (arith, e))
  fix_double_black-Fixed zero n t (left_child black v u p) s b f e = absurd (omega (arith, e))
  fix_double_black-Fixed zero n t (right_child red u v p) s b f e = absurd (omega (arith, e))
  fix_double_black-Fixed zero n t (right_child black u v p) s b f e = absurd (omega (arith, e))
  fix_double_black-Fixed (suc fuel) n t root s b f e =
      rw (blacken_same t b) (plugged n t root s f (ground (arith, b)))
  fix_double_black-Fixed (suc fuel) n t (left_child c v leaf p) s b f e =
      absurd (omega (arith, f.0.height))
  fix_double_black-Fixed (suc fuel) n t (left_child red v (node red inner sv outer) p) s b f e =
      absurd (ground (arith, f))
  fix_double_black-Fixed (suc zero) n t (left_child red v (node black inner sv outer) p) s b f e =
      absurd (omega (arith, e))
  fix_double_black-Fixed (suc (suc fuel)) n t (left_child red v (node black inner sv outer) p) s b f
        e =
      elim (Bool-cases (is_black outer)) [
        | inr ro ↦ left_case_6 (suc fuel) n red t inner outer v sv p s b f ro
        | inl bo ↦ elim (Bool-cases (is_black inner)) [
          | inr ri ↦ left_case_5 fuel n red t inner outer v sv p s b f ri bo
          | inl bi ↦
              (let (si, so) = children_of_black n inner outer sv f.0 in
                let recolored_parent = (node black (blacken t) v (node red inner sv outer)) in
                let step : fix_double_black (suc (suc fuel)) t
                      (left_child red v (node black inner sv outer) p)
                    ≡ some (plug recolored_parent p) =
                  ground (arith, bi, bo) in
                rw step (
                  elsewhere _ _ _ (simp (append_assoc, to_list-blacken t) refl) (
                    plugged (n + 1) recolored_parent p
                      (raised n (blacken t) (node red inner sv outer) v (blacken-IsSubtree n t s b)
                        (lowered n inner outer sv si so (ground (arith, bi, bo))))
                      f.2 refl)))
        ]
      ]
  fix_double_black-Fixed (suc fuel) n t (left_child black v (node red inner sv outer) p) s b f e =
      let (si, so, bi, bo) = children_of_red (n + 1) inner outer sv f.0 in
      let path : Ancestors A = (left_child red v inner (left_child black sv outer p)) in
      let step : fix_double_black (suc fuel) t (left_child black v (node red inner sv outer) p)
          ≡ fix_double_black fuel t path =
        ground (arith, bi, bo) in
      rw step (
        elsewhere _ _ _ (simp append_assoc refl) (
          fix_double_black-Fixed fuel n t path s b (si, ground (arith, bi), (so, refl, f.2))
            (omega (arith, e))))
  fix_double_black-Fixed (suc zero) n t (left_child black v (node black inner sv outer) p) s b f e =
      absurd (omega (arith, e))
  fix_double_black-Fixed (suc (suc fuel)) n t (left_child black v (node black inner sv outer) p) s b
        f e =
      elim (Bool-cases (is_black outer)) [
        | inr ro ↦ left_case_6 (suc fuel) n black t inner outer v sv p s b f ro
        | inl bo ↦ elim (Bool-cases (is_black inner)) [
          | inr ri ↦ left_case_5 fuel n black t inner outer v sv p s b f ri bo
          | inl bi ↦
              (let (si, so) = children_of_black n inner outer sv f.0 in
                let parent = (node black (blacken t) v (node red inner sv outer)) in
                let step : fix_double_black (suc (suc fuel)) t
                      (left_child black v (node black inner sv outer) p)
                    ≡ fix_double_black (suc fuel) parent p =
                  ground (arith, bi, bo) in
                rw step (
                  elsewhere _ _ _ (simp (append_assoc, to_list-blacken t) refl) (
                    fix_double_black-Fixed (suc fuel) (n + 1) parent p
                      (raised n (blacken t) (node red inner sv outer) v (blacken-IsSubtree n t s b)
                        (lowered n inner outer sv si so (ground (arith, bi, bo))))
                      refl f.2 (Enough-above (suc fuel) p (omega (arith, e))))))
        ]
      ]
  fix_double_black-Fixed (suc fuel) n t (right_child c leaf v p) s b f e =
      absurd (omega (arith, f.0.height))
  fix_double_black-Fixed (suc fuel) n t (right_child red (node red outer sv inner) v p) s b f e =
      absurd (ground (arith, f))
  fix_double_black-Fixed (suc zero) n t (right_child red (node black outer sv inner) v p) s b f e =
      absurd (omega (arith, e))
  fix_double_black-Fixed (suc (suc fuel)) n t (right_child red (node black outer sv inner) v p) s b
        f e =
      elim (Bool-cases (is_black outer)) [
        | inr ro ↦ right_case_6 (suc fuel) n red t inner outer v sv p s b f ro
        | inl bo ↦ elim (Bool-cases (is_black inner)) [
          | inr ri ↦ right_case_5 fuel n red t inner outer v sv p s b f ri bo
          | inl bi ↦
              (let (so, si) = children_of_black n outer inner sv f.0 in
                let recolored_parent = (node black (node red outer sv inner) v (blacken t)) in
                let step : fix_double_black (suc (suc fuel)) t
                      (right_child red (node black outer sv inner) v p)
                    ≡ some (plug recolored_parent p) =
                  ground (arith, bi, bo) in
                rw step (
                  elsewhere _ _ _ (simp (append_assoc, to_list-blacken t) refl) (
                    plugged (n + 1) recolored_parent p
                      (raised n (node red outer sv inner) (blacken t) v
                        (lowered n outer inner sv so si (ground (arith, bi, bo)))
                        (blacken-IsSubtree n t s b))
                      f.2 refl)))
        ]
      ]
  fix_double_black-Fixed (suc fuel) n t (right_child black (node red outer sv inner) v p) s b f e =
      let (so, si, bo, bi) = children_of_red (n + 1) outer inner sv f.0 in
      let path : Ancestors A = (right_child red inner v (right_child black outer sv p)) in
      let step : fix_double_black (suc fuel) t (right_child black (node red outer sv inner) v p)
          ≡ fix_double_black fuel t path =
        ground (arith, bi, bo) in
      rw step (
        elsewhere _ _ _ (simp append_assoc refl) (
          fix_double_black-Fixed fuel n t path s b (si, ground (arith, bi), (so, refl, f.2))
            (omega (arith, e))))
  fix_double_black-Fixed (suc zero) n t (right_child black (node black outer sv inner) v p) s b f
        e =
      absurd (omega (arith, e))
  fix_double_black-Fixed (suc (suc fuel)) n t (right_child black (node black outer sv inner) v p) s
        b f e =
      elim (Bool-cases (is_black outer)) [
        | inr ro ↦ right_case_6 (suc fuel) n black t inner outer v sv p s b f ro
        | inl bo ↦ elim (Bool-cases (is_black inner)) [
          | inr ri ↦ right_case_5 fuel n black t inner outer v sv p s b f ri bo
          | inl bi ↦
              (let (so, si) = children_of_black n outer inner sv f.0 in
                let parent = (node black (node red outer sv inner) v (blacken t)) in
                let step : fix_double_black (suc (suc fuel)) t
                      (right_child black (node black outer sv inner) v p)
                    ≡ fix_double_black (suc fuel) parent p =
                  ground (arith, bi, bo) in
                rw step (
                  elsewhere _ _ _ (simp (append_assoc, to_list-blacken t) refl) (
                    fix_double_black-Fixed (suc fuel) (n + 1) parent p
                      (raised n (node red outer sv inner) (blacken t) v
                        (lowered n outer inner sv so si (ground (arith, bi, bo)))
                        (blacken-IsSubtree n t s b))
                      refl f.2 (Enough-above (suc fuel) p (omega (arith, e))))))
        ]
      ]
