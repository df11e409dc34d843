-- ===== src/RedBlackTree/InsertionFix.antt =====
-- The correction after an insertion keeps the values in order and restores the invariant.
use ultra_os.Common.{
  ℕ, ◌+◌, ◌≡◌, refl, ap, Bool, true, false, ◌&&◌, ◌||◌, ◌∷◌, ◌++◌, append_assoc, arith, Bool-cases,
  inl, inr,
}
use ultra_os.RedBlackTree.{
  red, black, is_black_color, Tree, leaf, node, Ancestors, root, left_child, right_child, is_black,
  blacken, parent_is_black, plug, to_list, rotate_left, rotate_right,
}
use ultra_os.RedBlackTree.Places.{before, after}
use ultra_os.RedBlackTree.Invariant.{weight, IsSubtree, Fits}
use ultra_os.RedBlackTree.Insertion.{
  fix_insertion_violations_if_needed, grandparent_color, fix_left_left, fix_right_right,
}
use ultra_os.RedBlackTree.Subtrees.{
  Fixed, plugged, elsewhere, raised, lowered, blackened, recolored, blacken-black, to_list-blacken,
}

module _ {ℓ} {A : Type ℓ} where
  abbrev pub not_root : Ancestors A → Bool
  not_root root = false
  not_root (left_child c v s p) = true
  not_root (right_child c s v p) = true

  -- What the search for the grandparent's color leaves: above it the height is right, and the root is black.
  Fits-grandparent :
      (n : ℕ) (p : Ancestors A)
      → Fits (n + 1) p
      → Fits (weight (grandparent_color black p) (n + 1)) p
  Fits-grandparent n root f = tt
  Fits-grandparent n (left_child c v s p) f = f
  Fits-grandparent n (right_child c s v p) f = f

  grandparent_fits :
      (p : Ancestors A) → (is_black_color (grandparent_color black p) || not_root p) ≡ true
  grandparent_fits root = refl
  grandparent_fits (left_child c v s p) = refl
  grandparent_fits (right_child c s v p) = refl

  -- The double rotations.
  left_right :
      (n : ℕ) (u t aunt : Tree A) (v gv : A)
      → IsSubtree n u
      → IsSubtree n t
      → IsSubtree n aunt
      → is_black t ≡ false
      → (is_black u && is_black aunt) ≡ true
      → IsSubtree (n + 1) (fix_left_left (rotate_left (node red u v t)) gv aunt)
        × (to_list (fix_left_left (rotate_left (node red u v t)) gv aunt)
            ≡ to_list u ++ v ∷ (to_list t ++ gv ∷ to_list aunt))
        × (is_black (fix_left_left (rotate_left (node red u v t)) gv aunt) ≡ true)
  unfolding to_list
  left_right n u leaf aunt v gv p q r h k = absurd (ground (arith, h))
  left_right n u (node black a x b) aunt v gv p q r h k = absurd (ground (arith, h))
  left_right n u (node red a x b) aunt v gv p q r h k = (
    raised n (node red u v a) (node red b gv aunt) x
        (record {
          colored = ground (arith, p, q, k);
          balanced = ground (arith, p, q);
          height = ground (arith, p);
        })
        (record {
          colored = ground (arith, r, q, k);
          balanced = ground (arith, r, q);
          height = ground (arith, q);
        }),
    simp append_assoc refl,
    refl,
  )

  right_left :
      (n : ℕ) (u t aunt : Tree A) (v gv : A)
      → IsSubtree n u
      → IsSubtree n t
      → IsSubtree n aunt
      → is_black t ≡ false
      → (is_black u && is_black aunt) ≡ true
      → IsSubtree (n + 1) (fix_right_right (rotate_right (node red t v u)) gv aunt)
        × (to_list (fix_right_right (rotate_right (node red t v u)) gv aunt)
            ≡ to_list aunt ++ gv ∷ (to_list t ++ v ∷ to_list u))
        × (is_black (fix_right_right (rotate_right (node red t v u)) gv aunt) ≡ true)
  unfolding to_list
  right_left n u leaf aunt v gv p q r h k = absurd (ground (arith, h))
  right_left n u (node black a x b) aunt v gv p q r h k = absurd (ground (arith, h))
  right_left n u (node red a x b) aunt v gv p q r h k = (
    raised n (node red aunt gv a) (node red b v u) x
        (record {
          colored = ground (arith, r, q, k);
          balanced = ground (arith, r, q);
          height = ground (arith, r);
        })
        (record {
          colored = ground (arith, p, q, k);
          balanced = ground (arith, p, q);
          height = ground (arith, q);
        }),
    simp append_assoc refl,
    refl,
  )

  pub fix_insertion-Fixed :
      (n : ℕ) (t : Tree A) (p : Ancestors A)
      → IsSubtree n t
      → Fits n p
      → ((is_black t || not_root p) ≡ true)
      → Fixed (before p ++ (to_list t ++ after p)) (fix_insertion_violations_if_needed t p)
  unfolding fix_insertion_violations_if_needed before after to_list plug
  fix_insertion-Fixed n t root s f b = plugged n t root s f (ground (arith, b))
  fix_insertion-Fixed n t (left_child black v u root) s f b =
      plugged n t (left_child black v u root) s f (ground arith)
  fix_insertion-Fixed n t (right_child black u v root) s f b =
      plugged n t (right_child black u v root) s f (ground arith)
  fix_insertion-Fixed n t (left_child red v u root) s f b = absurd (ground (arith, f))
  fix_insertion-Fixed n t (right_child red u v root) s f b = absurd (ground (arith, f))
  fix_insertion-Fixed n t (left_child black v u (left_child gc gv aunt p)) s f b =
      plugged n t (left_child black v u (left_child gc gv aunt p)) s f (ground arith)
  fix_insertion-Fixed n t (left_child red v u (left_child red gv aunt p)) s f b =
      absurd (ground (arith, f))
  fix_insertion-Fixed n t (left_child red v u (left_child black gv aunt p)) s f b =
      elim (Bool-cases (is_black t)) [
        | inl bt ↦
            rw (fix_insertion_violations_if_needed, bt)
              (plugged n t (left_child red v u (left_child black gv aunt p)) s f
                (ground (arith, bt)))
        | inr rt ↦ elim (Bool-cases (is_black aunt)) [
          | inl ba ↦
              rw (fix_insertion_violations_if_needed, rt, ba)
                (elsewhere _ _ _ (simp append_assoc refl) (
                  plugged (n + 1) (fix_left_left (node red t v u) gv aunt) p
                    (raised n t (node red u gv aunt) v s
                      (lowered n u aunt gv f.0 f.2.0 (ground (arith, f, ba))))
                    f.2.2 refl))
          | inr ra ↦
              rw (fix_insertion_violations_if_needed, rt, ra)
                (elsewhere _ _ _ (simp (append_assoc, to_list-blacken aunt) refl) (
                  fix_insertion-Fixed (weight (grandparent_color black p) (n + 1))
                    (node (grandparent_color black p) (node black t v u) gv (blacken aunt)) p
                    (recolored n (grandparent_color black p) (node black t v u) (blacken aunt) gv
                      (raised n t u v s f.0) (blackened n aunt f.2.0 ra) (blacken-black aunt))
                    (Fits-grandparent n p f.2.2) (grandparent_fits p)))
        ]
      ]
  fix_insertion-Fixed n t (right_child black u v (left_child gc gv aunt p)) s f b =
      plugged n t (right_child black u v (left_child gc gv aunt p)) s f (ground arith)
  fix_insertion-Fixed n t (right_child red u v (left_child red gv aunt p)) s f b =
      absurd (ground (arith, f))
  fix_insertion-Fixed n t (right_child red u v (left_child black gv aunt p)) s f b =
      elim (Bool-cases (is_black t)) [
        | inl bt ↦
            rw (fix_insertion_violations_if_needed, bt)
              (plugged n t (right_child red u v (left_child black gv aunt p)) s f
                (ground (arith, bt)))
        | inr rt ↦ elim (Bool-cases (is_black aunt)) [
          | inl ba ↦
              (let (sub, same, blk) =
                  left_right n u t aunt v gv f.0 s f.2.0 rt (ground (arith, f, ba)) in
                rw (fix_insertion_violations_if_needed, rt, ba)
                  (elsewhere _ _ _ (simp (same, append_assoc) refl) (
                    plugged (n + 1) (fix_left_left (rotate_left (node red u v t)) gv aunt) p sub
                      f.2.2 (ap (λ b. b || parent_is_black p) blk))))
          | inr ra ↦
              rw (fix_insertion_violations_if_needed, rt, ra)
                (elsewhere _ _ _ (simp (append_assoc, to_list-blacken aunt) refl) (
                  fix_insertion-Fixed (weight (grandparent_color black p) (n + 1))
                    (node (grandparent_color black p) (node black u v t) gv (blacken aunt)) p
                    (recolored n (grandparent_color black p) (node black u v t) (blacken aunt) gv
                      (raised n u t v f.0 s) (blackened n aunt f.2.0 ra) (blacken-black aunt))
                    (Fits-grandparent n p f.2.2) (grandparent_fits p)))
        ]
      ]
  fix_insertion-Fixed n t (left_child black v u (right_child gc aunt gv p)) s f b =
      plugged n t (left_child black v u (right_child gc aunt gv p)) s f (ground arith)
  fix_insertion-Fixed n t (left_child red v u (right_child red aunt gv p)) s f b =
      absurd (ground (arith, f))
  fix_insertion-Fixed n t (left_child red v u (right_child black aunt gv p)) s f b =
      elim (Bool-cases (is_black t)) [
        | inl bt ↦
            rw (fix_insertion_violations_if_needed, bt)
              (plugged n t (left_child red v u (right_child black aunt gv p)) s f
                (ground (arith, bt)))
        | inr rt ↦ elim (Bool-cases (is_black aunt)) [
          | inl ba ↦
              (let (sub, same, blk) =
                  right_left n u t aunt v gv f.0 s f.2.0 rt (ground (arith, f, ba)) in
                rw (fix_insertion_violations_if_needed, rt, ba)
                  (elsewhere _ _ _ (simp (same, append_assoc) refl) (
                    plugged (n + 1) (fix_right_right (rotate_right (node red t v u)) gv aunt) p sub
                      f.2.2 (ap (λ b. b || parent_is_black p) blk))))
          | inr ra ↦
              rw (fix_insertion_violations_if_needed, rt, ra)
                (elsewhere _ _ _ (simp (append_assoc, to_list-blacken aunt) refl) (
                  fix_insertion-Fixed (weight (grandparent_color black p) (n + 1))
                    (node (grandparent_color black p) (blacken aunt) gv (node black t v u)) p
                    (recolored n (grandparent_color black p) (blacken aunt) (node black t v u) gv
                      (blackened n aunt f.2.0 ra) (raised n t u v s f.0)
                      (ground (arith, blacken-black aunt)))
                    (Fits-grandparent n p f.2.2) (grandparent_fits p)))
        ]
      ]
  fix_insertion-Fixed n t (right_child black u v (right_child gc aunt gv p)) s f b =
      plugged n t (right_child black u v (right_child gc aunt gv p)) s f (ground arith)
  fix_insertion-Fixed n t (right_child red u v (right_child red aunt gv p)) s f b =
      absurd (ground (arith, f))
  fix_insertion-Fixed n t (right_child red u v (right_child black aunt gv p)) s f b =
      elim (Bool-cases (is_black t)) [
        | inl bt ↦
            rw (fix_insertion_violations_if_needed, bt)
              (plugged n t (right_child red u v (right_child black aunt gv p)) s f
                (ground (arith, bt)))
        | inr rt ↦ elim (Bool-cases (is_black aunt)) [
          | inl ba ↦
              rw (fix_insertion_violations_if_needed, rt, ba)
                (elsewhere _ _ _ (simp append_assoc refl) (
                  plugged (n + 1) (fix_right_right (node red u v t) gv aunt) p
                    (raised n (node red aunt gv u) t v
                      (lowered n aunt u gv f.2.0 f.0 (ground (arith, f, ba))) s)
                    f.2.2 refl))
          | inr ra ↦
              rw (fix_insertion_violations_if_needed, rt, ra)
                (elsewhere _ _ _ (simp (append_assoc, to_list-blacken aunt) refl) (
                  fix_insertion-Fixed (weight (grandparent_color black p) (n + 1))
                    (node (grandparent_color black p) (blacken aunt) gv (node black u v t)) p
                    (recolored n (grandparent_color black p) (blacken aunt) (node black u v t) gv
                      (blackened n aunt f.2.0 ra) (raised n u t v f.0 s)
                      (ground (arith, blacken-black aunt)))
                    (Fits-grandparent n p f.2.2) (grandparent_fits p)))
        ]
      ]
