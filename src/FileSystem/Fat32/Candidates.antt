-- ===== src/FileSystem/Fat32/Candidates.antt =====
-- A well-formed volume, and the clusters that an allocation takes on it: they are free and all different.
use ultra_os.Common.{
  ℕ, zero, suc, ◌+◌, ◌-◌, ◌≤◌, ◌<◌, ◌≡◌, ◌≢◌, inl, inr, sym, ap, ◌∙◌, arith, false, not, ◌==◌,
  if◌then◌else◌, Bool-cases, List, [], ◌∷◌, ◌++◌, take, All, All-map, All-append,
}
use ultra_os.FileSystem.Fat32.{
  Entries, Volume, set_entry, free_cluster, bad_cluster, end_of_chain_min_cluster,
}
use ultra_os.FileSystem.Fat32.Table.{free_from, linked, last_of, free_from-All}
use ultra_os.FileSystem.Fat32.Chains.{Apart, linked_elsewhere, last_of-All}
use ultra_os.FileSystem.Fat32.Allocate.{candidates, with_chain}

-- The two reserved entries are in use, the clusters are fewer than the marks of bad clusters and of ends, the hint
-- is one of them or the number of them, and chains end in a mark of an end.
pub record IsVolume (v : Volume) : Type 0 where
  pub zeroth_used : v.entries 0 ≢ free_cluster
  pub first_used : v.entries 1 ≢ free_cluster
  pub few : v.cluster_count ≤ bad_cluster
  pub hint : v.last_free_cluster ≤ v.cluster_count
  pub ends : end_of_chain_min_cluster ≤ v.end_of_chain_value

abbrev pub IsCandidate : Volume → ℕ → Type 0
IsCandidate v c = (v.entries c ≡ free_cluster) × (2 ≤ c) × (c < v.cluster_count)

module _ {ℓ κ} {A : Type ℓ} where
  pub take-All : (P : A → Type κ) (n : ℕ) (xs : List A) → All P xs → All P (take n xs)
  take-All P zero xs h = tt
  take-All P (suc n) [] h = tt
  take-All P (suc n) (x ∷ xs) h = (h.0, take-All P n xs h.1)

pub take-Apart : (n : ℕ) (xs : List ℕ) → Apart xs → Apart (take n xs)
take-Apart zero xs h = tt
take-Apart (suc n) [] h = tt
take-Apart (suc n) (x ∷ xs) h = (take-All (λ d. d ≢ x) n xs h.0, take-Apart n xs h.1)

append-Apart :
    (xs ys : List ℕ) → Apart xs → Apart ys → All (λ x. All (λ y. y ≢ x) ys) xs → Apart (xs ++ ys)
append-Apart [] ys h k across = k
append-Apart (x ∷ xs) ys h k across =
    (All-append (λ d. d ≢ x) xs ys h.0 across.0, append-Apart xs ys h.1 k across.1)

free_from-Apart : (entries : Entries) (n cluster : ℕ) → Apart (free_from entries n cluster)
unfolding free_from
free_from-Apart entries zero cluster = tt
free_from-Apart entries (suc n) cluster = elim (Bool-cases (entries cluster == free_cluster)) [
  | inl e ↦ rw e (
    All-map (free_from entries n (cluster + 1)) (λ c h q. omega (arith, h.0, q))
        (free_from-All entries n (cluster + 1)),
    free_from-Apart entries n (cluster + 1),
  )
  | inr e ↦ rw e (free_from-Apart entries n (cluster + 1))
]

pub candidates-All : (v : Volume) → IsVolume v → All (IsCandidate v) (candidates v)
candidates-All v w =
    let hint = v.last_free_cluster in
    let ahead = free_from v.entries (v.cluster_count - hint) hint in
    let behind = free_from v.entries (hint - 2) 2 in
    let bound : hint ≤ v.cluster_count = w.hint in
    let not_reserved : (c : ℕ) → v.entries c ≡ free_cluster → 2 ≤ c = λ c e. ground (
      arith,
      (λ (q : c ≡ 0). w.zeroth_used (ap v.entries (sym q) ∙ e)),
      (λ (q : c ≡ 1). w.first_used (ap v.entries (sym q) ∙ e)),
    ) in
    All-append (IsCandidate v) ahead behind
      (All-map ahead (λ c h. (h.2, not_reserved c h.2, omega (arith, h.0, h.1, bound)))
        (free_from-All v.entries (v.cluster_count - hint) hint))
      (All-map behind (λ c h. (h.2, h.0, omega (arith, h.0, h.1, bound)))
        (free_from-All v.entries (hint - 2) 2))

pub candidates-Apart : (v : Volume) → Apart (candidates v)
candidates-Apart v =
    let hint = v.last_free_cluster in
    let ahead = free_from v.entries (v.cluster_count - hint) hint in
    let behind = free_from v.entries (hint - 2) 2 in
    append-Apart ahead behind (free_from-Apart v.entries (v.cluster_count - hint) hint)
      (free_from-Apart v.entries (hint - 2) 2)
      (All-map ahead
        (λ x h.
          All-map behind (λ y k q. omega (arith, h.0, k.0, k.1, q))
            (free_from-All v.entries (hint - 2) 2))
        (free_from-All v.entries (v.cluster_count - hint) hint))

-- A table outside a chain that is entered.
pub entered_elsewhere :
    (v : Volume) (link_to c : ℕ) (cs : List ℕ) (x : ℕ)
    → All (λ d. x ≢ d) (c ∷ cs)
    → (with_chain v link_to (c ∷ cs)).entries x
      ≡ (if not (link_to == free_cluster) then set_entry link_to c v.entries else v.entries) x
unfolding linked last_of
entered_elsewhere v link_to c cs x apart =
    let away : (x == last_of c cs) ≡ false =
      let ne = last_of-All (λ d. x ≢ d) c cs apart.0 apart.1 in ground (arith, ne) in
    rw away (
      linked_elsewhere
        (if not (link_to == free_cluster) then set_entry link_to c v.entries else v.entries) c cs x
        apart.0 apart.1)
