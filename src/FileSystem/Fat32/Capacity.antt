-- ===== src/FileSystem/Fat32/Capacity.antt =====
-- `calculate_capacity` counts the free clusters.
use ultra_os.Common.{
  ℕ, zero, suc, ◌+◌, ◌≡◌, refl, ap, ◌∙◌, arith, ◌==◌, if◌then◌else◌, Bool-cases, length, inl, inr,
}
use ultra_os.FileSystem.Fat32.{Entries, Volume, free_cluster, capacity_loop, calculate_capacity}
use ultra_os.FileSystem.Fat32.Table.{free_from}

length-free_from :
    (entries : Entries) (n cluster : ℕ)
    → length (free_from entries (suc n) cluster)
      ≡ length (free_from entries n cluster)
        + (if entries (cluster + n) == free_cluster then 1 else 0)
unfolding free_from
length-free_from entries zero cluster =
    let at : cluster + 0 ≡ cluster = omega arith in
    let same : entries (cluster + 0) ≡ entries cluster = ap entries at in ground (arith, same)
length-free_from entries (suc n) cluster =
    let at : cluster + 1 + n ≡ cluster + suc n = omega arith in
    let same : entries (cluster + 1 + n) ≡ entries (cluster + suc n) = ap entries at in
    let rest =
      length-free_from entries n (cluster + 1)
      ∙ ap
          (λ (x : ℕ).
            length (free_from entries n (cluster + 1)) + (if x == free_cluster then 1 else 0))
          same in
    elim (Bool-cases (entries cluster == free_cluster)) [
      | inl e ↦ rw e (omega (arith, rest))
      | inr e ↦ rw e rest
    ]

length-free_from_zero : (entries : Entries) (cluster : ℕ) → length (free_from entries 0 cluster) ≡ 0
unfolding free_from
length-free_from_zero entries cluster = refl

capacity_loop_lem :
    (n : ℕ) (v : Volume)
    → let v' = capacity_loop n v in
      let frees = length (free_from v.entries n 2) in
      (v'.free_clusters ≡ v.free_clusters + frees)
      × (v'.last_free_cluster ≡ (if frees == 0 then v.last_free_cluster else 0))
      × (v'.entries ≡ v.entries)
unfolding capacity_loop
capacity_loop_lem zero v =
    let none_free = length-free_from_zero v.entries 2 in rw none_free (omega arith, refl, refl)
capacity_loop_lem (suc n) v =
    let at : v.entries (2 + n) ≡ v.entries (suc n + 1) = ap v.entries (omega arith) in
    elim (Bool-cases (v.entries (suc n + 1) == free_cluster)) [
      | inl e ↦
          (let counted = record v {
            free_clusters = v.free_clusters + 1;
            last_free_cluster = v.entries (suc n + 1);
          } in
            let size : length (free_from v.entries (suc n) 2)
                ≡ length (free_from v.entries n 2) + 1 =
              length-free_from v.entries n 2 ∙ rw (at, e) refl in
            let (count, hint, same) = capacity_loop_lem n counted in
            rw (capacity_loop, e, size)
              (
                count ∙ omega arith,
                hint
                    ∙ (let zero_entry : v.entries (suc n + 1) ≡ 0 = ground (arith, e) in
                        ground (arith, zero_entry)),
                same,
              ))
      | inr e ↦
          (let size : length (free_from v.entries (suc n) 2) ≡ length (free_from v.entries n 2) =
              length-free_from v.entries n 2
              ∙ ◌∙◌ {b = length (free_from v.entries n 2) + 0} (rw (at, e) refl) (omega arith) in
            let (count, hint, same) = capacity_loop_lem n v in
            rw (capacity_loop, e, size) (count, hint, same))
    ]

-- `calculate_capacity` adds the number of the free clusters to the count, leaves the table alone, and sets the hint to 0
-- if there is a free cluster.
pub calculate_capacity_lem :
    (v : Volume)
    → let v' = calculate_capacity v in
      let frees = length (free_from v.entries v.cluster_count 2) in
      (v'.free_clusters ≡ v.free_clusters + frees)
      × (v'.last_free_cluster ≡ (if frees == 0 then v.last_free_cluster else 0))
      × (v'.entries ≡ v.entries)
unfolding calculate_capacity
calculate_capacity_lem v = capacity_loop_lem v.cluster_count v
