-- ===== src/FileSystem/Fat32/Free.antt =====
-- `free_cluster_chain_starting_at` frees the clusters of a chain and no others.
use ultra_os.Common.{
  ℕ, zero, suc, ◌<◌, ◌≡◌, ◌≢◌, refl, sym, ◌∙◌, arith, true, false, ◌==◌, List, [], ◌∷◌, length,
  some, All, All-map,
}
use ultra_os.FileSystem.Fat32.{
  entry_type_of_fat_value, Entries, Volume, set_entry, free_cluster, free_loop, keep_first,
  including_first, free_cluster_chain_starting_at,
}
use ultra_os.FileSystem.Fat32.Chains.{IsChain, Apart, link_not_end, IsChain-ext}

set_entry_apart :
    (entries : Entries) (c value : ℕ) (cs : List ℕ)
    → All (λ d. d ≢ c) cs
    → All (λ d. set_entry c value entries d ≡ entries d) cs
set_entry_apart entries c value cs apart =
    All-map cs (λ d ne. let other : (d == c) ≡ false = ground (arith, ne) in rw other refl) apart

free_loop_lem :
    (cs : List ℕ) (c fuel : ℕ) (v : Volume)
    → IsChain v.entries (c ∷ cs)
    → Apart (c ∷ cs)
    → length cs < fuel
    → (entries : Entries) × (free_loop fuel c v ≡ some (record v { entries = entries }))
      × All (λ d. entries d ≡ free_cluster) (c ∷ cs)
      × ((x : ℕ) → All (λ d. x ≢ d) (c ∷ cs) → entries x ≡ v.entries x)
unfolding free_loop
free_loop_lem cs c zero v chain apart h = absurd (omega (arith, h))
free_loop_lem [] c (suc fuel) v chain apart h =
    let here : (c == c) ≡ true = ground arith in
    (
      set_entry c free_cluster v.entries,
      rw chain refl,
      (rw here refl, tt),
      λ x ne.
          let first = ne.0 in let other : (x == c) ≡ false = ground (arith, first) in rw other refl,
    )
free_loop_lem (d ∷ cs) c (suc fuel) v chain apart h =
    let here : (c == c) ≡ true = ground arith in
    let v' = record v { entries = set_entry c free_cluster v.entries } in
    let goes_on = link_not_end (entry_type_of_fat_value d) chain.1 in
    let rest =
      IsChain-ext v.entries v'.entries (d ∷ cs)
        (set_entry_apart v.entries c free_cluster (d ∷ cs) apart.0) chain.2 in
    let (entries, returns, freed, kept) =
      free_loop_lem cs d fuel v' rest apart.1 (omega (arith, h)) in
    (
      entries,
      rw (chain.0, goes_on) returns,
      (kept c (All-map (d ∷ cs) (λ x ne q. ne (sym q)) apart.0) ∙ rw here refl, freed),
      λ x ne.
          let first = ne.0 in
          let other : (x == c) ≡ false = ground (arith, first) in kept x ne.1 ∙ rw other refl,
    )

-- Freeing a chain of clusters that are all different, with as many rounds as it has clusters, frees just these; with
-- its first cluster kept, of at least two, it frees the others, and the first one ends its chain.
pub free_cluster_chain_starting_at_lem :
    (c : ℕ) (cs : List ℕ) (fuel : ℕ) (v : Volume)
    → IsChain v.entries (c ∷ cs)
    → Apart (c ∷ cs)
    → length cs < fuel
    → ((entries : Entries) × (free_cluster_chain_starting_at fuel c including_first v
          ≡ some (record v { entries = entries }))
        × All (λ d. entries d ≡ free_cluster) (c ∷ cs)
        × ((x : ℕ) → All (λ d. x ≢ d) (c ∷ cs) → entries x ≡ v.entries x))
      × (cs ≢ []
          → (entries : Entries) × (free_cluster_chain_starting_at fuel c keep_first v
              ≡ some (record v { entries = entries }))
            × (entries c ≡ v.end_of_chain_value)
            × All (λ d. entries d ≡ free_cluster) cs
            × ((x : ℕ) → All (λ d. x ≢ d) (c ∷ cs) → entries x ≡ v.entries x))
unfolding free_cluster_chain_starting_at
free_cluster_chain_starting_at_lem c [] fuel v chain apart h =
    (free_loop_lem [] c fuel v chain apart h, λ ne. absurd (ne refl))
free_cluster_chain_starting_at_lem c (d ∷ cs) fuel v chain apart h = (
  free_loop_lem (d ∷ cs) c fuel v chain apart h,
  λ ne.
      (let here : (c == c) ≡ true = ground arith in
        let v' = record v { entries = set_entry c v.end_of_chain_value v.entries } in
        let rest =
          IsChain-ext v.entries v'.entries (d ∷ cs)
            (set_entry_apart v.entries c v.end_of_chain_value (d ∷ cs) apart.0) chain.2 in
        let (entries, returns, freed, kept) =
          free_loop_lem cs d fuel v' rest apart.1 (omega (arith, h)) in
        (
          entries,
          rw chain.0 returns,
          kept c (All-map (d ∷ cs) (λ x ne q. ne (sym q)) apart.0) ∙ rw here refl,
          freed,
          λ x ne.
              let first = ne.0 in
              let other : (x == c) ≡ false = ground (arith, first) in kept x ne.1 ∙ rw other refl,
        )),
)
