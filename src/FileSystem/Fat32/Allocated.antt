-- ===== src/FileSystem/Fat32/Allocated.antt =====
-- What an allocation gives on a well-formed volume: a chain of free clusters, which freeing gives back.
use ultra_os.Common.{
  ℕ, ◌≤◌, ◌<◌, ◌≡◌, ◌≢◌, inl, inr, refl, sym, ap, subst, ◌∙◌, arith, true, false, not, ◌==◌,
  if◌then◌else◌, List, [], ◌∷◌, length, length-take, take, List-cases, some, All, All-map, All-map₂,
  ok,
}
use native.Mathlib.Decide.{ℕ_discrete}
use ultra_os.FileSystem.Fat32.{
  entry_type_of_fat_value, is_link, Volume, set_entry, free_cluster, allocate_cluster_chain,
  including_first, free_cluster_chain_starting_at,
}
use ultra_os.FileSystem.Fat32.Table.{linked, last_of, is_link_lem, set_entry_free}
use ultra_os.FileSystem.Fat32.Chains.{IsChain, Apart, last_of-All, entered-IsChain}
use ultra_os.FileSystem.Fat32.Allocate.{candidates, with_chain, allocate_cluster_chain_lem}
use ultra_os.FileSystem.Fat32.Free.{free_cluster_chain_starting_at_lem}
use ultra_os.FileSystem.Fat32.Candidates.{
  IsVolume, IsCandidate, take-All, take-Apart, candidates-All, candidates-Apart, entered_elsewhere,
}

entered_lem :
    (v : Volume) (link_to c : ℕ) (cs : List ℕ)
    → IsVolume v
    → v.entries link_to ≢ free_cluster
    → All (IsCandidate v) (c ∷ cs)
    → Apart (c ∷ cs)
    → let v' = with_chain v link_to (c ∷ cs) in
      IsChain v'.entries (c ∷ cs) × IsVolume v' × (link_to ≢ free_cluster → v'.entries link_to ≡ c)
unfolding linked last_of
entered_lem v link_to c cs w used all apart =
    let few = w.few in
    let base = if not (link_to == free_cluster) then set_entry link_to c v.entries else v.entries in
    let nonzero : c ≢ free_cluster = λ q. omega (arith, all.0.1, q) in
    let links : All (λ d. (d ≢ free_cluster) × (is_link (entry_type_of_fat_value d) ≡ true)) cs =
      All-map cs
        (λ d h. ((λ q. omega (arith, h.1, q)), is_link_lem d h.1 (omega (arith, few, h.2))))
        all.1 in
    let other : (x : ℕ) → v.entries x ≢ free_cluster → All (λ d. x ≢ d) (c ∷ cs) =
      λ x taken. All-map (c ∷ cs) (λ d h q. taken (ap v.entries q ∙ h.0)) all in
    let kept : (x : ℕ)
        → v.entries x ≢ free_cluster
        → (with_chain v link_to (c ∷ cs)).entries x ≢ free_cluster =
      λ x taken q.
        (let same = set_entry_free v.entries link_to c x nonzero (inr used) in
          let at : base x ≡ free_cluster =
            sym (entered_elsewhere v link_to c cs x (other x taken)) ∙ q in
          taken (ground (arith, sym same ∙ ap (λ (y : ℕ). y == free_cluster) at))) in
    (
      entered-IsChain base c cs v.end_of_chain_value nonzero links apart w.ends,
      record {
        zeroth_used = kept 0 w.zeroth_used;
        first_used = kept 1 w.first_used;
        few = w.few;
        hint =
            let last =
              last_of-All (λ d. d < v.cluster_count) c cs all.0.2 (All-map cs (λ d h. h.2) all.1) in
            omega (arith, last);
        ends = w.ends;
      },
      λ ne.
          (let linking : (link_to == free_cluster) ≡ false = ground (arith, ne) in
            let here : (link_to == link_to) ≡ true = ground arith in
            entered_elsewhere v link_to c cs link_to (other link_to used)
            ∙ rw (linking, here) refl),
    )

not_linked :
    (v : Volume) (link_to c x : ℕ)
    → (link_to ≢ free_cluster → x ≢ link_to)
    → (if not (link_to == free_cluster) then set_entry link_to c v.entries else v.entries) x
      ≡ v.entries x
not_linked v link_to c x ne = elim (ℕ_discrete link_to free_cluster) [
  | yes e ↦ ground (arith, e)
  | no given ↦ (let other = ne given in ground (arith, given, other))
]

-- On a well-formed volume with enough free clusters below their number, an allocation of a number of clusters gives
-- that many, free before and all different: they are a chain in the new table, behind the cluster to link to if
-- one is given; all other entries are as before, and the volume is well formed again.
pub allocate_cluster_chain-IsChain :
    (count link_to : ℕ) (v : Volume)
    → IsVolume v
    → 0 < count
    → count ≤ v.free_clusters
    → count ≤ length (candidates v)
    → v.entries link_to ≢ free_cluster
    → (c : ℕ) × (cs : List ℕ) × (v' : Volume) × (allocate_cluster_chain count link_to v
        ≡ ok (c ∷ cs, v'))
      × (length (c ∷ cs) ≡ count)
      × All (IsCandidate v) (c ∷ cs)
      × Apart (c ∷ cs)
      × IsChain v'.entries (c ∷ cs)
      × (link_to ≢ free_cluster → v'.entries link_to ≡ c)
      × ((x : ℕ)
          → (link_to ≢ free_cluster → x ≢ link_to)
          → All (λ d. x ≢ d) (c ∷ cs)
          → v'.entries x ≡ v.entries x)
      × IsVolume v'
allocate_cluster_chain-IsChain count link_to v w pos counted enough used =
    let size : length (take count (candidates v)) ≡ count =
      omega (arith, length-take count (candidates v), enough) in
    elim (List-cases (take count (candidates v))) [
      | inl e ↦ absurd (omega (arith, sym size ∙ ap length e, pos))
      | inr (c, cs, e) ↦
          (let all =
              subst (All (IsCandidate v)) e
                (take-All (IsCandidate v) count (candidates v) (candidates-All v w)) in
            let apart = subst Apart e (take-Apart count (candidates v) (candidates-Apart v)) in
            let (chain, well, linked_to) = entered_lem v link_to c cs w used all apart in
            let returns : allocate_cluster_chain count link_to v
                ≡ ok (c ∷ cs, with_chain v link_to (c ∷ cs)) =
              elim (allocate_cluster_chain_lem count link_to v pos counted w.zeroth_used used) [
                | inl (h, q) ↦ q ∙ ap (λ xs. ok (xs, with_chain v link_to xs)) e
                | inr (fewer, q) ↦ absurd (omega (arith, fewer, enough))
              ] in
            (
              c,
              cs,
              with_chain v link_to (c ∷ cs),
              returns,
              sym (ap length e) ∙ size,
              all,
              apart,
              chain,
              linked_to,
              λ x ne others.
                  entered_elsewhere v link_to c cs x others ∙ not_linked v link_to c x ne,
              well,
            ))
    ]

-- A predicate of a number that holds in a list and, of a number outside it, by another proof.
by_member : (P : ℕ → Type 0) (x : ℕ) (cs : List ℕ) → All P cs → (All (λ d. x ≢ d) cs → P x) → P x
by_member P x [] all outside = outside tt
by_member P x (c ∷ cs) all outside = elim (ℕ_discrete x c) [
  | yes e ↦ subst P (sym e) all.0
  | no ne ↦ by_member P x cs all.1 (λ others. outside (ne, others))
]

-- On a well-formed volume with enough free clusters below their number, freeing a chain that was allocated by itself
-- gives every entry of the table back.
pub allocate_cluster_chain-free_cluster_chain :
    (count : ℕ) (v : Volume)
    → IsVolume v
    → 0 < count
    → count ≤ v.free_clusters
    → count ≤ length (candidates v)
    → (c : ℕ) × (cs : List ℕ) × (v' : Volume) × (v'' : Volume) × (allocate_cluster_chain count
          free_cluster v
        ≡ ok (c ∷ cs, v'))
      × (free_cluster_chain_starting_at count c including_first v' ≡ some v'')
      × ((x : ℕ) → v''.entries x ≡ v.entries x)
allocate_cluster_chain-free_cluster_chain count v w pos counted enough =
    let (c, cs, v', returns, size, all, apart, chain, linked_to, kept, well) =
      allocate_cluster_chain-IsChain count free_cluster v w pos counted enough w.zeroth_used in
    let ((entries, frees, freed, others), keeping) =
      free_cluster_chain_starting_at_lem c cs count v' chain apart (omega (arith, size)) in
    (
      c,
      cs,
      v',
      record v' { entries = entries },
      returns,
      frees,
      λ x.
          by_member (λ y. entries y ≡ v.entries y) x (c ∷ cs)
            (All-map₂ (c ∷ cs) (λ d h k. h ∙ sym k.0) freed all)
            (λ outside. others x outside ∙ kept x (λ given. absurd (given refl)) outside),
    )
