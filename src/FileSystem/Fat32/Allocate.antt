-- ===== src/FileSystem/Fat32/Allocate.antt =====
-- `allocate_cluster_chain` takes the first free clusters, from the hint on and then before it.
use ultra_os.Common.{
  ℕ, zero, suc, ◌+◌, ◌-◌, ◌≤◌, ◌<◌, ◌≡◌, ◌≢◌, ◌⊎◌, inl, inr, refl, sym, ap, subst, ◌∙◌, arith, true,
  false, ◌==◌, leb, if◌then◌else◌, List, [], ◌∷◌, ◌++◌, length, length-take, take, List-cases, All,
  All-map, panic, ok, err,
}
use native.Mathlib.Decide.{dec_lt}
use ultra_os.FileSystem.Fat32.{
  Volume, Chaining, set_entry, free_cluster, scan, allocate_cluster_chain,
}
use ultra_os.FileSystem.Fat32.Table.{
  free_from, linked, last_of, linked_free, free_from_ext, free_from-All,
}
use ultra_os.FileSystem.Fat32.Scan.{taken, taken-append, IsOutside, scan_lem}

module _ {ℓ} {A : Type ℓ} where
  take-append_le : (n : ℕ) (xs ys : List A) → n ≤ length xs → take n (xs ++ ys) ≡ take n xs
  take-append_le zero xs ys h = refl
  take-append_le (suc n) [] ys h = absurd (omega arith)
  take-append_le (suc n) (x ∷ xs) ys h = ap (λ r. x ∷ r) (take-append_le n xs ys (omega (arith, h)))

  take_all : (n : ℕ) (xs : List A) → length xs ≤ n → take n xs ≡ xs
  take_all zero [] h = refl
  take_all (suc n) [] h = refl
  take_all zero (x ∷ xs) h = absurd (omega (arith, h))
  take_all (suc n) (x ∷ xs) h = ap (λ r. x ∷ r) (take_all n xs (omega (arith, h)))

  take-append_ge : (m : ℕ) (xs ys : List A) → take (length xs + m) (xs ++ ys) ≡ xs ++ take m ys
  take-append_ge m [] ys = let e : 0 + m ≡ m = omega arith in rw e refl
  take-append_ge m (x ∷ xs) ys =
      let e : suc (length xs) + m ≡ suc (length xs + m) = omega arith in
      rw e (ap (λ r. x ∷ r) (take-append_ge m xs ys))

-- The clusters that the allocation looks at, in its order.
abbrev pub candidates : Volume → List ℕ
candidates v =
    free_from v.entries (v.cluster_count - v.last_free_cluster) v.last_free_cluster
    ++ free_from v.entries (v.last_free_cluster - 2) 2

-- The volume with a chain entered.
abbrev pub with_chain : Volume → ℕ → List ℕ → Volume
with_chain v link_to cs = record v {
  entries = set_entry (last_of link_to cs) v.end_of_chain_value (linked v.entries link_to cs);
  last_free_cluster = last_of link_to cs + 1;
  free_clusters = v.free_clusters - length cs;
}

last_of-All : (P : ℕ → Type 0) (c : ℕ) (cs : List ℕ) → P c → All P cs → P (last_of c cs)
unfolding last_of
last_of-All P c [] p all = p
last_of-All P c (d ∷ cs) p all = last_of-All P d cs all.0 all.1

-- The state in front of the second round, if the first has not found enough.
second_round :
    (count m link_to : ℕ) (v : Volume)
    → let hint = v.last_free_cluster in
      let start : Chaining = record { table = v.entries; prev = link_to; chain = [] } in
      let ahead = free_from v.entries (v.cluster_count - hint) hint in
      let behind = free_from v.entries (hint - 2) 2 in
      count ≡ length ahead + suc m
      → v.entries 0 ≢ free_cluster
      → v.entries link_to ≢ free_cluster
      → scan count (hint - 2) 2 (taken start ahead) ≡ taken start (ahead ++ take (suc m) behind)
unfolding linked last_of
second_round count m link_to v size zeroth used =
    let hint = v.last_free_cluster in
    let start : Chaining = record { table = v.entries; prev = link_to; chain = [] } in
    let ahead = free_from v.entries (v.cluster_count - hint) hint in
    let behind = free_from v.entries (hint - 2) 2 in
    let first = taken start ahead in
    let found = free_from-All v.entries (v.cluster_count - hint) hint in
    let nonzero : All (λ c. c ≢ free_cluster) ahead =
      All-map ahead (λ c h e. zeroth (ap v.entries (sym e) ∙ h.2)) found in
    let kept : (x : ℕ)
        → All (λ c. x ≢ c) ahead
        → (first.table x == free_cluster) ≡ (v.entries x == free_cluster) =
      λ x apart. linked_free v.entries link_to ahead x nonzero apart (inr used) in
    let zeroth' : first.table 0 ≢ free_cluster =
      let same = kept 0 (All-map ahead (λ c ne q. ne (sym q)) nonzero) in
      (λ q. zeroth (ground (arith, same, q))) in
    let below : (x : ℕ) → x < 2 + (hint - 2) → 2 ≤ x → All (λ c. x ≢ c) ahead =
      λ x high low. All-map ahead (λ c h q. omega (arith, h.0, q, high, low)) found in
    let outside : IsOutside first (hint - 2) 2 = λ x low high. elim (List-cases ahead) [
      | inl e ↦ inr (
          subst (λ cs. linked v.entries link_to cs (last_of link_to cs) ≢ free_cluster) (sym e)
            used)
      | inr (c, cs, e) ↦ inl (
          subst (λ cs. x ≢ last_of link_to cs) (sym e)
            (let ne = subst (All (λ c. x ≢ c)) e (below x high low) in
              last_of-All (λ c. x ≢ c) c cs ne.0 ne.1))
    ] in
    let same : free_from first.table (hint - 2) 2 ≡ behind =
      free_from_ext first.table v.entries (hint - 2) 2 (λ x low high. kept x (below x high low)) in
    scan_lem count (hint - 2) 2 m first size zeroth' outside
    ∙ ap (λ cs. taken first (take (suc m) cs)) same
    ∙ taken-append start ahead (take (suc m) behind)

both_rounds :
    (count k : ℕ) (link_to : ℕ) (v : Volume)
    → count ≡ suc k
    → v.entries 0 ≢ free_cluster
    → v.entries link_to ≢ free_cluster
    → let start : Chaining = record { table = v.entries; prev = link_to; chain = [] } in
      let first = scan count (v.cluster_count - v.last_free_cluster) v.last_free_cluster start in
      (if length first.chain == count then first else scan count (v.last_free_cluster - 2) 2 first)
      ≡ taken start (take count (candidates v))
both_rounds count k link_to v size zeroth used =
    let start : Chaining = record { table = v.entries; prev = link_to; chain = [] } in
    let hint = v.last_free_cluster in
    let ahead = free_from v.entries (v.cluster_count - hint) hint in
    let behind = free_from v.entries (hint - 2) 2 in
    let first =
      scan_lem count (v.cluster_count - hint) hint k start (omega (arith, size)) zeroth
        (λ x low high. inr used) in
    let goes_on : Chaining → Chaining =
      λ c. if length c.chain == count then c else scan count (hint - 2) 2 c in
    elim (dec_lt k (length ahead)) [
      | yes enough ↦
          (let full : (length (take (suc k) ahead) == count) ≡ true =
              ground (arith, length-take (suc k) ahead, size, enough) in
            let cut : take (suc k) ahead ≡ take count (candidates v) = sym (
              ap (λ (n : ℕ). take n (ahead ++ behind)) size
              ∙ take-append_le (suc k) ahead behind (omega (arith, enough))) in
            ap goes_on first
            ∙ ◌∙◌ {b = taken start (take (suc k) ahead)} (rw full refl) (ap (taken start) cut))
      | no short ↦
          (let m = k - length ahead in
            let total : count ≡ length ahead + suc m = omega (arith, size, short) in
            let less : (length ahead == count) ≡ false = ground (arith, total) in
            let joined : ahead ++ take (suc m) behind ≡ take count (candidates v) = sym (
              ap (λ (n : ℕ). take n (ahead ++ behind)) total
              ∙ take-append_ge (suc m) ahead behind) in
            ap goes_on (first ∙ ap (taken start) (take_all (suc k) ahead (omega (arith, short))))
            ∙ ◌∙◌ {b = scan count (hint - 2) 2 (taken start ahead)} (rw less refl)
                (second_round count m link_to v total zeroth used)
            ∙ ap (taken start) joined)
    ]

-- With a table whose first entry is in use, like that of the cluster to link to, if any, an allocation of as many
-- clusters as are counted free gives the first ones of that number that are free from the hint on and
-- then before it, below the number of clusters: they are entered behind one another and behind the given
-- cluster, with the end of the chain at the last, and the hint and the count follow. If there are fewer, it panics.
pub allocate_cluster_chain_lem :
    (count link_to : ℕ) (v : Volume)
    → 0 < count
    → count ≤ v.free_clusters
    → v.entries 0 ≢ free_cluster
    → v.entries link_to ≢ free_cluster
    → ((count ≤ length (candidates v))
        × (allocate_cluster_chain count link_to v
            ≡ ok (take count (candidates v), with_chain v link_to (take count (candidates v)))))
      ⊎ ((length (candidates v) < count) × (allocate_cluster_chain count link_to v ≡ err panic))
unfolding allocate_cluster_chain
allocate_cluster_chain_lem count link_to v pos counted zeroth used =
    let (k, size) : (k : ℕ) × (count ≡ suc k) = (count - 1, omega (arith, pos)) in
    let nonzero : (count == 0) ≡ false = ground (arith, pos) in
    let in_count : leb count v.free_clusters ≡ true = ground (arith, counted) in
    let rounds = both_rounds count k link_to v size zeroth used in
    let taken_length = length-take count (candidates v) in
    elim (dec_lt (length (candidates v)) count) [
      | yes few ↦
          (let less : (length (take count (candidates v)) == count) ≡ false =
              ground (arith, taken_length, few) in
            inr (few, rw (nonzero, in_count, rounds, less) refl))
      | no enough ↦
          (let same : length (take count (candidates v)) ≡ count =
              omega (arith, taken_length, enough) in
            let full : (length (take count (candidates v)) == count) ≡ true =
              ground (arith, same) in
            inl (omega (arith, enough), rw (nonzero, in_count, rounds, full, same) refl))
    ]
