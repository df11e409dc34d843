-- ===== src/RedBlackTree/Search.antt =====
-- `find_node`, `lower_bound_node` and `upper_bound_node` against the values in order.
use ultra_os.Common.{
  ◌≡◌, refl, sym, ap, subst, ◌∙◌, ◌⊎◌, inl, inr, Bool, true, false, List, [], ◌∷◌, ◌++◌, append-nil,
  append_assoc, Option, none, some, not, All, All-append, All-map, arith, Bool-cases,
}
use ultra_os.Utilities.Sort.{IsOrder}
use ultra_os.RedBlackTree.{
  Tree, leaf, node, Ancestors, root, left_child, right_child, Place, place, plug, to_list, Traits,
  find_from, find_node, lower_bound_from, lower_bound_node, upper_bound_from, upper_bound_node,
}
use ultra_os.RedBlackTree.Places.{before, after, to_list-plug, ahead, behind, whole}
use ultra_os.RedBlackTree.Order.{
  Lt, Gt, IsEquivalent, Ascending, Ascending-split, lt_of_lt_le, lt_of_le_lt, lt_trans,
}

true_ne : {b : Bool} → b ≡ false → not b ≡ true
true_ne h = ground (arith, h)

ne_true_eq : {b : Bool} → not b ≡ true → b ≡ false
ne_true_eq {b} h = ground (arith, h)

ne_false_eq : {b : Bool} → not b ≡ false → b ≡ true
ne_false_eq {b} h = ground (arith, h)

module _ {ℓ κ} {A : Type ℓ} {K : Type κ} (traits : Traits A K) where
  -- The search has found the node of the key.
  pub record Hit (key : K) (t : Tree A) (z : Place A) : Type ℓ where
    pub inside : whole z ≡ t
    pub same : IsEquivalent traits key z.value
    pub lower : All (Lt traits key) (ahead z)
    pub upper : All (Gt traits key) (behind z)

  -- No value has the key: it belongs between those in front and those behind.
  pub record Miss (key : K) (values front back : List A) : Type ℓ where
    pub parts : values ≡ front ++ back
    pub lower : All (Lt traits key) front
    pub upper : All (Gt traits key) back

  abbrev pub Found : K → Tree A → Option (Place A) → Type ℓ
  Found key t result =
      ((z : Place A) × (result ≡ some z) × Hit key t z)
      ⊎ ((result ≡ none) × (front : List A) × (back : List A) × Miss key (to_list t) front back)

  -- The values of a subtree on each side of its root, seen from a key.
  all_lower :
      {key : K} (v : A) (xs : List A)
      → IsOrder traits.comparator
      → traits.comparator key (traits.extract_key v) ≡ false
      → All (Lt traits (traits.extract_key v)) xs
      → All (Lt traits key) xs
  all_lower {key} v xs o le h =
      All-map xs (λ x p. lt_of_lt_le o (traits.extract_key x) (traits.extract_key v) key p le) h

  all_upper :
      {key : K} (v : A) (xs : List A)
      → IsOrder traits.comparator
      → traits.comparator (traits.extract_key v) key ≡ false
      → All (Gt traits (traits.extract_key v)) xs
      → All (Gt traits key) xs
  all_upper {key} v xs o le h =
      All-map xs (λ x p. lt_of_le_lt o key (traits.extract_key v) (traits.extract_key x) le p) h

  find_from-Found :
      (key : K) (t : Tree A) (p : Ancestors A)
      → IsOrder traits.comparator
      → Ascending traits (to_list t)
      → All (Lt traits key) (before p)
      → All (Gt traits key) (after p)
      → Found key (plug t p) (find_from traits key t p)
  unfolding find_from to_list before after plug
  find_from-Found key leaf p o asc low high =
      inr
        (refl, before p, after p, record { parts = to_list-plug leaf p; lower = low; upper = high })
  find_from-Found key (node c l v r) p o asc low high =
      let (asc_l, lt, gt, asc_r) = Ascending-split traits (to_list l) v (to_list r) asc in
      elim (Bool-cases (traits.comparator (traits.extract_key v) key)) [
        | inl less ↦
            (let le = o.one_way (traits.extract_key v) key less in
              rw (find_from, less)
                (find_from-Found key r (right_child c l v p) o asc_r
                  (All-append (Lt traits key) (before p) (to_list l ++ v ∷ []) low (
                    All-append (Lt traits key) (to_list l) (v ∷ [])
                      (all_lower v (to_list l) o le lt) (less, tt)))
                  high))
        | inr ge ↦ elim (Bool-cases (traits.comparator key (traits.extract_key v))) [
          | inl less ↦
              rw (find_from, ge, less)
                (find_from-Found key l (left_child c v r p) o asc_l low (
                  less,
                  All-append (Gt traits key) (to_list r) (after p) (all_upper v (to_list r) o ge gt)
                      high,
                ))
          | inr le ↦
              rw (find_from, ge, le)
                (inl (
                  place c l v r p,
                  refl,
                  record {
                    inside = refl;
                    same = (ge, le);
                    lower =
                        All-append (Lt traits key) (before p) (to_list l) low
                          (all_lower v (to_list l) o le lt);
                    upper =
                        All-append (Gt traits key) (to_list r) (after p)
                          (all_upper v (to_list r) o ge gt) high;
                  },
                ))
        ]
      ]

  -- In a tree whose values ascend, `find_node` gives a node of the tree with an equivalent key, with
  -- all values in front of it before the key and all behind it after the key; or it gives the end, and then
  -- the values fall in two parts, one before the key and one after it.
  pub find_node_lem :
      (key : K) (t : Tree A)
      → IsOrder traits.comparator
      → Ascending traits (to_list t)
      → ((z : Place A) × (find_node traits key t ≡ some z) × Hit key t z)
        ⊎ ((find_node traits key t ≡ none)
            × (front : List A) × (back : List A) × Miss key (to_list t) front back)
  unfolding find_node before after plug
  find_node_lem key t o asc = find_from-Found key t root o asc tt tt

  -- `o` is the first place whose value fails the test, of a tree in whose order the test holds up to some place.
  abbrev Bounded : (A → Bool) → Tree A → Option (Place A) → Type ℓ
  Bounded test t o =
      ((z : Place A) × (o ≡ some z)
        × (whole z ≡ t)
        × All (λ v. test v ≡ true) (ahead z)
        × (test z.value ≡ false))
      ⊎ ((o ≡ none) × All (λ v. test v ≡ true) (to_list t))

  -- What `result` is when the search comes to the subtree `t` at `p`.
  abbrev Pending : (A → Bool) → Tree A → Ancestors A → Option (Place A) → Type ℓ
  Pending test t p result =
      ((z : Place A) × (result ≡ some z)
        × (whole z ≡ plug t p)
        × (ahead z ≡ before p ++ to_list t)
        × (test z.value ≡ false))
      ⊎ ((result ≡ none) × (after p ≡ []))

  -- Both loops: down to the right where the test holds, and to the left where it does not.
  bound_from : (A → Bool) → Tree A → Ancestors A → Option (Place A) → Option (Place A)
  bound_from test leaf p result = result
  bound_from test (node c l v r) p result = elim (test v) [
    | true ↦ bound_from test r (right_child c l v p) result
    | false ↦ bound_from test l (left_child c v r p) (some (place c l v r p))
  ]

  lower_bound_from-bound :
      (key : K) (t : Tree A) (p : Ancestors A) (result : Option (Place A))
      → lower_bound_from traits key t p result
        ≡ bound_from (λ v. traits.comparator (traits.extract_key v) key) t p result
  unfolding lower_bound_from bound_from
  lower_bound_from-bound key leaf p result = refl
  lower_bound_from-bound key (node c l v r) p result = ground (
    arith,
    lower_bound_from-bound key r (right_child c l v p) result,
    lower_bound_from-bound key l (left_child c v r p) (some (place c l v r p)),
  )

  upper_bound_from-bound :
      (key : K) (t : Tree A) (p : Ancestors A) (result : Option (Place A))
      → upper_bound_from traits key t p result
        ≡ bound_from (λ v. not (traits.comparator key (traits.extract_key v))) t p result
  unfolding upper_bound_from bound_from
  upper_bound_from-bound key leaf p result = refl
  upper_bound_from-bound key (node c l v r) p result = ground (
    arith,
    upper_bound_from-bound key r (right_child c l v p) result,
    upper_bound_from-bound key l (left_child c v r p) (some (place c l v r p)),
  )

  bound_from-Bounded :
      (test : A → Bool) (t : Tree A) (p : Ancestors A) (result : Option (Place A))
      → ((x v : A) → Lt traits (traits.extract_key v) x → test v ≡ true → test x ≡ true)
      → Ascending traits (to_list t)
      → All (λ v. test v ≡ true) (before p)
      → Pending test t p result
      → Bounded test (plug t p) (bound_from test t p result)
  unfolding bound_from to_list before after plug
  bound_from-Bounded test leaf p result mono asc low (inl (z, e, inside, front, fails)) = inl (
    z,
    e,
    inside,
    subst (All (λ v. test v ≡ true)) (sym (front ∙ append-nil (before p))) low,
    fails,
  )
  bound_from-Bounded test leaf p result mono asc low (inr (e, last)) =
      let values : to_list (plug leaf p) ≡ before p =
        to_list-plug leaf p ∙ ap (λ ys. before p ++ ys) last ∙ append-nil (before p) in
      inr (e, subst (All (λ v. test v ≡ true)) (sym values) low)
  bound_from-Bounded test (node c l v r) p result mono asc low pending =
      let (asc_l, lt, gt, asc_r) = Ascending-split traits (to_list l) v (to_list r) asc in
      elim (Bool-cases (test v)) [
        | inl holds ↦
            rw (bound_from, holds)
              (bound_from-Bounded test r (right_child c l v p) result mono asc_r
                (All-append (λ x. test x ≡ true) (before p) (to_list l ++ v ∷ []) low
                  (All-append (λ x. test x ≡ true) (to_list l) (v ∷ [])
                    (All-map (to_list l) (λ x q. mono x v q holds) lt) (holds, tt)))
                (elim pending [
                  | inl (z, e, inside, front, fails) ↦
                      inl (z, e, inside, simp append_assoc front, fails)
                  | inr (e, last) ↦ inr (e, last)
                ]))
        | inr fails ↦
            rw (bound_from, fails)
              (bound_from-Bounded test l (left_child c v r p) (some (place c l v r p)) mono asc_l
                low (inl (place c l v r p, refl, refl, refl, fails)))
      ]

  -- In a tree whose values ascend, `lower_bound_node` gives the node that all values before the key stand in front
  -- of, and whose value is not before the key; or it gives the end, and all values are before the key.
  pub lower_bound_node_lem :
      (key : K) (t : Tree A)
      → IsOrder traits.comparator
      → Ascending traits (to_list t)
      → ((z : Place A) × (lower_bound_node traits key t ≡ some z)
          × (whole z ≡ t)
          × All (Lt traits key) (ahead z)
          × (traits.comparator (traits.extract_key z.value) key ≡ false))
        ⊎ ((lower_bound_node traits key t ≡ none) × All (Lt traits key) (to_list t))
  unfolding lower_bound_node before after plug
  lower_bound_node_lem key t o asc =
      rw (lower_bound_node, lower_bound_from-bound key t root none)
        (bound_from-Bounded (λ v. traits.comparator (traits.extract_key v) key) t root none
          (λ x v p q. lt_trans o (traits.extract_key x) (traits.extract_key v) key p q) asc tt
          (inr (refl, refl)))

  -- In a tree whose values ascend, `upper_bound_node` gives the node that all values which the key is not before
  -- stand in front of, and whose value the key is before; or it gives the end, and the key is before no value.
  pub upper_bound_node_lem :
      (key : K) (t : Tree A)
      → IsOrder traits.comparator
      → Ascending traits (to_list t)
      → ((z : Place A) × (upper_bound_node traits key t ≡ some z)
          × (whole z ≡ t)
          × All (λ v. traits.comparator key (traits.extract_key v) ≡ false) (ahead z)
          × Gt traits key z.value)
        ⊎ ((upper_bound_node traits key t ≡ none)
            × All (λ v. traits.comparator key (traits.extract_key v) ≡ false) (to_list t))
  unfolding upper_bound_node before after plug
  upper_bound_node_lem key t o asc =
      let test : A → Bool = λ v. not (traits.comparator key (traits.extract_key v)) in
      let mono : (x v : A) → Lt traits (traits.extract_key v) x → test v ≡ true → test x ≡ true =
        λ x v p q. true_ne (
          o.chain (traits.extract_key x) (traits.extract_key v) key
            (o.one_way (traits.extract_key x) (traits.extract_key v) p) (ne_true_eq q)) in
      rw (upper_bound_node, upper_bound_from-bound key t root none)
        (elim (bound_from-Bounded test t root none mono asc tt (inr (refl, refl))) [
          | inl (z, e, inside, front, fails) ↦
              inl (z, e, inside, All-map (ahead z) (λ v q. ne_true_eq q) front, ne_false_eq fails)
          | inr (e, all) ↦ inr (e, All-map (to_list t) (λ v q. ne_true_eq q) all)
        ])
