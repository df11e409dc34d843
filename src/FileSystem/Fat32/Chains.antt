-- ===== src/FileSystem/Fat32/Chains.antt =====
-- Chains of clusters in a table, and the functions that follow them.
use ultra_os.Common.{
  ℕ, zero, suc, ◌≤◌, ◌<◌, ◌≡◌, ◌≢◌, refl, sym, ap, subst, ◌∙◌, arith, true, false, not, ◌==◌,
  if◌then◌else◌, List, [], ◌∷◌, length, get_elem?, some, All, All-map, ok,
}
use ultra_os.FileSystem.Fat32.{
  FatEntryType, free, reserved, bad, end_of_chain, link, entry_type_of_fat_value, is_end, is_link,
  Entries, Volume, set_entry, free_cluster, end_of_chain_min_cluster, nth_cluster_in_chain,
  last_cluster_in_chain,
}
use ultra_os.FileSystem.Fat32.Table.{linked, last_of, is_end_lem}

-- Each cluster's entry is the next cluster, which is a link, and the last one's entry ends the chain.
abbrev pub IsChain : Entries → List ℕ → Type 0
IsChain entries [] = ⊥
IsChain entries (c ∷ []) = is_end (entry_type_of_fat_value (entries c)) ≡ true
IsChain entries (c ∷ d ∷ cs) =
    (entries c ≡ d) × (is_link (entry_type_of_fat_value d) ≡ true) × IsChain entries (d ∷ cs)

abbrev pub Apart : List ℕ → Type 0
Apart [] = Unit
Apart (c ∷ cs) = All (λ d. d ≢ c) cs × Apart cs

pub link_not_end : (t : FatEntryType) → is_link t ≡ true → is_end t ≡ false
link_not_end free e = refl
link_not_end reserved e = refl
link_not_end bad e = refl
link_not_end end_of_chain e = absurd (ground (arith, e))
link_not_end link e = refl

pub end_not_link : (t : FatEntryType) → is_end t ≡ true → is_link t ≡ false
end_not_link free e = refl
end_not_link reserved e = refl
end_not_link bad e = refl
end_not_link end_of_chain e = refl
end_not_link link e = absurd (ground (arith, e))

pub IsChain-ext :
    (entries entries' : Entries) (cs : List ℕ)
    → All (λ c. entries' c ≡ entries c) cs
    → IsChain entries cs
    → IsChain entries' cs
IsChain-ext entries entries' [] same h = h
IsChain-ext entries entries' (c ∷ []) same h =
    subst (λ x. is_end (entry_type_of_fat_value x) ≡ true) (sym same.0) h
IsChain-ext entries entries' (c ∷ d ∷ cs) same h =
    (same.0 ∙ h.0, h.1, IsChain-ext entries entries' (d ∷ cs) same.1 h.2)

-- Following a chain: `n` steps give the cluster at `n`.
pub nth_cluster_in_chain_lem :
    (cs : List ℕ) (c n d : ℕ) (v : Volume)
    → IsChain v.entries (c ∷ cs)
    → get_elem? (c ∷ cs) n ≡ some d
    → nth_cluster_in_chain c n v ≡ ok d
unfolding nth_cluster_in_chain
nth_cluster_in_chain_lem cs c zero d v chain at = ground (arith, at)
nth_cluster_in_chain_lem [] c (suc n) d v chain at = absurd (ground (arith, at))
nth_cluster_in_chain_lem (e ∷ cs) c (suc n) d v chain at =
    let goes_on = link_not_end (entry_type_of_fat_value e) chain.1 in
    rw (chain.0, goes_on) (nth_cluster_in_chain_lem cs e n d v chain.2 at)

-- A chain's last cluster is found in as many rounds as it has clusters.
pub last_cluster_in_chain_lem :
    (cs : List ℕ) (c fuel : ℕ) (v : Volume)
    → IsChain v.entries (c ∷ cs)
    → length cs < fuel
    → last_cluster_in_chain fuel c v ≡ some (last_of c cs)
unfolding last_cluster_in_chain last_of
last_cluster_in_chain_lem cs c zero v chain h = absurd (omega (arith, h))
last_cluster_in_chain_lem [] c (suc fuel) v chain h =
    let stops = end_not_link (entry_type_of_fat_value (v.entries c)) chain in rw stops refl
last_cluster_in_chain_lem (d ∷ cs) c (suc fuel) v chain h =
    rw (chain.0, chain.1) (last_cluster_in_chain_lem cs d fuel v chain.2 (omega (arith, h)))

-- A table changes by a chain at the clusters in it and at the one in front of it only.
pub linked_elsewhere :
    (entries : Entries) (prev : ℕ) (cs : List ℕ) (x : ℕ)
    → x ≢ prev
    → All (λ c. x ≢ c) cs
    → linked entries prev cs x ≡ entries x
unfolding linked
linked_elsewhere entries prev [] x ne apart = refl
linked_elsewhere entries prev (c ∷ cs) x ne apart =
    linked_elsewhere (if not (prev == free_cluster) then set_entry prev c entries else entries) c cs
      x apart.0 apart.1
    ∙ ground (arith, ne)

pub last_of-All : (P : ℕ → Type 0) (c : ℕ) (cs : List ℕ) → P c → All P cs → P (last_of c cs)
unfolding last_of
last_of-All P c [] p all = p
last_of-All P c (d ∷ cs) p all = last_of-All P d cs all.0 all.1

-- What is entered is a chain.
pub entered-IsChain :
    (entries : Entries) (c : ℕ) (cs : List ℕ) (last : ℕ)
    → c ≢ free_cluster
    → All (λ d. (d ≢ free_cluster) × (is_link (entry_type_of_fat_value d) ≡ true)) cs
    → Apart (c ∷ cs)
    → end_of_chain_min_cluster ≤ last
    → IsChain (set_entry (last_of c cs) last (linked entries c cs)) (c ∷ cs)
unfolding linked last_of
entered-IsChain entries c [] last nonzero links apart h =
    let here : (c == c) ≡ true = ground arith in rw here (is_end_lem last h)
entered-IsChain entries c (d ∷ cs) last nonzero links apart h =
    let others = apart.0 in
    let used : (c == free_cluster) ≡ false = ground (arith, nonzero) in
    let here : (c == c) ≡ true = ground arith in
    let away : (c == last_of d cs) ≡ false =
      let ne = last_of-All (λ x. x ≢ c) d cs others.0 others.1 in ground (arith, ne) in
    let kept : linked (set_entry c d entries) d cs c ≡ d =
      linked_elsewhere (set_entry c d entries) d cs c (λ q. others.0 (sym q))
        (All-map cs (λ x ne q. ne (sym q)) others.1)
      ∙ rw here refl in
    let table : linked entries c (d ∷ cs) ≡ linked (set_entry c d entries) d cs =
      ap (λ t. linked (if not t then set_entry c d entries else entries) d cs) used in
    subst (λ t. IsChain (set_entry (last_of d cs) last t) (c ∷ d ∷ cs)) (sym table)
      (
        rw away kept,
        links.0.1,
        entered-IsChain (set_entry c d entries) d cs last links.0.0 links.1 apart.1 h,
      )
