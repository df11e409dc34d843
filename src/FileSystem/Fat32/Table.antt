-- ===== src/FileSystem/Fat32/Table.antt =====
-- The table as a description: which clusters are free in a stretch of it, and a table with a chain put into it.
use ultra_os.Common.{
  ℕ, zero, suc, ◌+◌, ◌≤◌, ◌<◌, ◌≡◌, ◌≢◌, ◌⊎◌, inl, inr, refl, ap, ◌∙◌, arith, true, not, ◌==◌,
  if◌then◌else◌, Bool-cases, List, [], ◌∷◌, All, All-map,
}
use native.Mathlib.Decide.{ℕ_discrete}
use ultra_os.FileSystem.Fat32.{
  entry_type_of_fat_value, is_free, is_end, is_link, Entries, set_entry, free_cluster, bad_cluster,
  end_of_chain_min_cluster,
}

-- The free clusters among `n` from `cluster` on, in order.
unfoldable pub free_from : Entries → ℕ → ℕ → List ℕ
free_from entries zero cluster = []
free_from entries (suc n) cluster =
    let rest = free_from entries n (cluster + 1) in
    if entries cluster == free_cluster then cluster ∷ rest else rest

-- Each cluster of a list entered behind the one in front of it, the first behind `prev` unless that is 0.
unfoldable pub linked : Entries → ℕ → List ℕ → Entries
linked entries prev [] = entries
linked entries prev (c ∷ cs) =
    linked (if not (prev == free_cluster) then set_entry prev c entries else entries) c cs

unfoldable pub last_of : ℕ → List ℕ → ℕ
last_of prev [] = prev
last_of prev (c ∷ cs) = last_of c cs

pub is_free_lem : (value : ℕ) → is_free (entry_type_of_fat_value value) ≡ (value == free_cluster)
unfolding entry_type_of_fat_value
is_free_lem value = ground arith

pub is_end_lem :
    (value : ℕ) → end_of_chain_min_cluster ≤ value → is_end (entry_type_of_fat_value value) ≡ true
unfolding entry_type_of_fat_value
is_end_lem value h = ground (arith, h)

pub is_link_lem :
    (value : ℕ) → 2 ≤ value → value < bad_cluster → is_link (entry_type_of_fat_value value) ≡ true
unfolding entry_type_of_fat_value
is_link_lem value h k = ground (arith, h, k)

-- Entering a cluster behind another leaves the same entries free.
pub set_entry_free :
    (entries : Entries) (prev c x : ℕ)
    → c ≢ free_cluster
    → (x ≢ prev) ⊎ (entries prev ≢ free_cluster)
    → ((if not (prev == free_cluster) then set_entry prev c entries else entries) x == free_cluster)
      ≡ (entries x == free_cluster)
set_entry_free entries prev c x nonzero (inl ne) = ground (arith, ne)
set_entry_free entries prev c x nonzero (inr used) = elim (ℕ_discrete x prev) [
  | yes e ↦
      (let same : entries x ≡ entries prev = ap entries e in ground (arith, nonzero, used, same, e))
  | no ne ↦ ground (arith, ne)
]

-- A linked table has the same free entries, but for those of the list.
pub linked_free :
    (entries : Entries) (prev : ℕ) (cs : List ℕ) (x : ℕ)
    → All (λ c. c ≢ free_cluster) cs
    → All (λ c. x ≢ c) cs
    → (x ≢ prev) ⊎ (entries prev ≢ free_cluster)
    → (linked entries prev cs x == free_cluster) ≡ (entries x == free_cluster)
unfolding linked
linked_free entries prev [] x nonzero apart outside = refl
linked_free entries prev (c ∷ cs) x nonzero apart outside =
    linked_free (if not (prev == free_cluster) then set_entry prev c entries else entries) c cs x
      nonzero.1 apart.1 (inl apart.0)
    ∙ set_entry_free entries prev c x nonzero.0 outside

-- Free clusters depend on which entries are free.
pub free_from_ext :
    (entries entries' : Entries) (n cluster : ℕ)
    → ((x : ℕ)
        → cluster ≤ x
        → x < cluster + n
        → (entries x == free_cluster) ≡ (entries' x == free_cluster))
    → free_from entries n cluster ≡ free_from entries' n cluster
unfolding free_from
free_from_ext entries entries' zero cluster h = refl
free_from_ext entries entries' (suc n) cluster h =
    let here = h cluster (omega arith) (omega arith) in
    let rest =
      free_from_ext entries entries' n (cluster + 1)
        (λ x low high. h x (omega (arith, low)) (omega (arith, high))) in
    rw (here, rest) refl

-- What is free lies in the stretch and is free.
pub free_from-All :
    (entries : Entries) (n cluster : ℕ)
    → All
        (λ c. (cluster ≤ c) × (c < cluster + n) × (entries c ≡ free_cluster))
        (free_from entries n cluster)
unfolding free_from
free_from-All entries zero cluster = tt
free_from-All entries (suc n) cluster =
    let rest : All (λ c. (cluster ≤ c) × (c < cluster + suc n) × (entries c ≡ free_cluster))
        (free_from entries n (cluster + 1)) =
      All-map (free_from entries n (cluster + 1))
        (λ c h. (omega (arith, h.0), omega (arith, h.1), h.2))
        (free_from-All entries n (cluster + 1)) in
    elim (Bool-cases (entries cluster == free_cluster)) [
      | inl e ↦ rw e ((omega arith, omega arith, ground (arith, e)), rest)
      | inr e ↦ rw e rest
    ]
