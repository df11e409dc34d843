-- ===== src/FileSystem/Fat32/Ranges.antt =====
-- The contiguous ranges of a file against its chain.
use ultra_os.Common.{
  ℕ, zero, suc, ◌+◌, ◌-◌, ◌*◌, ◌/◌, ◌%◌, ◌^◌, ◌≤◌, ◌<◌, ◌≡◌, ◌≢◌, refl, ap, ◌∙◌, arith, true, false,
  ltb, leb, ◌==◌, List, [], ◌∷◌, some, get_elem?, ok,
}
use native.Mathlib.Nat.{le-div_iff_mul-le}
use ultra_os.Utilities.{lower_bound}
use ultra_os.FileSystem.Fat32.{
  free, reserved, bad, end_of_chain, link, FatEntryType, entry_type_of_fat_value, is_link, is_end,
  bad_cluster, Volume,
}
use ultra_os.FileSystem.Fat32.Table.{is_link_lem}
use ultra_os.FileSystem.Fat32.Chains.{IsChain}
use ultra_os.FileSystem.Fat32.Files.{
  ContiguousFileRange, File, ranges_loop, compute_contiguous_ranges, cluster_from_offset,
  ceiling_divide, push_range,
}

-- Clusters in a row.
abbrev pub row : ℕ → ℕ → List ℕ
row c zero = []
row c (suc n) = c ∷ row (c + 1) n

end_lem : (t : FatEntryType) → is_end t ≡ true → t ≡ end_of_chain
end_lem free e = absurd (ground (arith, e))
end_lem reserved e = absurd (ground (arith, e))
end_lem bad e = absurd (ground (arith, e))
end_lem end_of_chain e = refl
end_lem link e = absurd (ground (arith, e))

link_lem : (t : FatEntryType) → is_link t ≡ true → t ≡ link
link_lem free e = absurd (ground (arith, e))
link_lem reserved e = absurd (ground (arith, e))
link_lem bad e = absurd (ground (arith, e))
link_lem end_of_chain e = absurd (ground (arith, e))
link_lem link e = refl

row_lem :
    (n fuel bytes_per_cluster size c offset : ℕ) (range : ContiguousFileRange) (v : Volume)
    → IsChain v.entries (row c (suc n))
    → n < fuel
    → size ≤ (offset + n) * bytes_per_cluster
    → (offset + n) * bytes_per_cluster < 2 ^ 32
    → ranges_loop fuel bytes_per_cluster size c offset range v ≡ some (ok (range ∷ []))
unfolding ranges_loop
row_lem n zero bytes_per_cluster size c offset range v chain h fits small =
    absurd (omega (arith, h))
row_lem zero (suc fuel) bytes_per_cluster size c offset range v chain h fits small =
    let kind = end_lem (entry_type_of_fat_value (v.entries c)) chain in
    let whole : (offset + 0) * bytes_per_cluster ≡ offset * bytes_per_cluster =
      ap (λ (x : ℕ). x * bytes_per_cluster) (omega arith) in
    let inside : leb size (offset * bytes_per_cluster % 2 ^ 32) ≡ true =
      ground (arith, fits, small, whole) in
    rw (ranges_loop, kind, inside) refl
row_lem (suc n) (suc fuel) bytes_per_cluster size c offset range v chain h fits small =
    let kind : entry_type_of_fat_value (v.entries c) ≡ link =
      ap entry_type_of_fat_value chain.0 ∙ link_lem _ chain.1 in
    let follows : (v.entries c == c + 1) ≡ true = (let e = chain.0 in ground (arith, e)) in
    let same : (offset + suc n) * bytes_per_cluster ≡ (offset + 1 + n) * bytes_per_cluster =
      ap (λ (x : ℕ). x * bytes_per_cluster) (omega arith) in
    rw (ranges_loop, kind, follows)
      (ap (λ (x : ℕ). ranges_loop fuel bytes_per_cluster size x (offset + 1) range v) chain.0
        ∙ row_lem n fuel bytes_per_cluster size (c + 1) (offset + 1) range v chain.2
            (omega (arith, h)) (omega (arith, fits, same)) (omega (arith, small, same)))

ranges_step :
    (fuel bytes_per_cluster size c d offset : ℕ) (range : ContiguousFileRange) (v : Volume)
    → v.entries c ≡ d
    → is_link (entry_type_of_fat_value d) ≡ true
    → d ≢ c + 1
    → ranges_loop (suc fuel) bytes_per_cluster size c offset range v
      ≡ push_range range (
          ranges_loop fuel bytes_per_cluster size d
            (offset + 1)
            (record { file_offset_cluster = offset + 1; global_cluster = d })
            v)
unfolding ranges_loop
ranges_step fuel bytes_per_cluster size c d offset range v next links apart =
    let kind : entry_type_of_fat_value (v.entries c) ≡ link =
      ap entry_type_of_fat_value next ∙ link_lem _ links in
    let follows : (v.entries c == c + 1) ≡ false = ground (arith, apart, next) in
    rw (ranges_loop, kind, follows)
      (ap
        (λ (x : ℕ). push_range range (
          ranges_loop fuel bytes_per_cluster size x (offset + 1)
            (record { file_offset_cluster = offset + 1; global_cluster = x }) v))
        next)

-- Of a file of two clusters that do not stand in a row, `cluster_from_offset` gives for the second one the cluster
-- behind the first, which is not the second of the chain.
pub contiguous_ranges-fragmented :
    (d bytes_per_cluster : ℕ) (file : File) (v : Volume)
    → IsChain v.entries (file.first_cluster ∷ d ∷ [])
    → d ≢ file.first_cluster + 1
    → 2 ≤ file.first_cluster
    → file.first_cluster + 1 < bad_cluster
    → 0 < bytes_per_cluster
    → bytes_per_cluster < file.size
    → file.size ≤ 2 * bytes_per_cluster
    → 2 * bytes_per_cluster < 2 ^ 32
    → (file' : File) × (compute_contiguous_ranges 2 bytes_per_cluster file v ≡ some (ok file'))
      × (cluster_from_offset bytes_per_cluster 1 file' ≡ ok (file.first_cluster + 1))
      × (get_elem? (file.first_cluster ∷ d ∷ []) 1 ≢ some (file.first_cluster + 1))
unfolding compute_contiguous_ranges cluster_from_offset ultra_os.Utilities.lower_bound
contiguous_ranges-fragmented d bytes_per_cluster file v chain apart low high pos long fits small =
    let c = file.first_cluster in
    let first : ContiguousFileRange = record { file_offset_cluster = 0; global_cluster = c } in
    let second : ContiguousFileRange = record { file_offset_cluster = 2; global_cluster = d } in
    let ranges : ranges_loop 2 bytes_per_cluster file.size c 1 first v
        ≡ some (ok (first ∷ second ∷ [])) =
      ranges_step 1 bytes_per_cluster file.size c d 1 first v chain.0 chain.1 apart
      ∙ ap (push_range first)
          (row_lem 0 1 bytes_per_cluster file.size d 2 second v chain.2 (omega arith) fits small) in
    let rest : 1 ≤ (file.size - 1) / bytes_per_cluster =
      (le-div_iff_mul-le pos).1 (omega (arith, long)) in
    let there : ltb 1 (ceiling_divide file.size bytes_per_cluster) ≡ true =
      ground (arith, long, rest) in
    let word : (c + 1) % 4294967296 ≡ c + 1 = omega (arith, high) in
    let kind = is_link_lem (c + 1) (omega (arith, low)) high in
    (
      record file { contiguous_ranges = first ∷ second ∷ [] },
      rw (compute_contiguous_ranges, ranges) refl,
      rw (there, word, kind) refl,
      λ q. absurd (ground (arith, apart, q)),
    )
