-- ===== src/FileSystem/Fat32/Files.antt =====
-- The contiguous ranges of a file, `compute_contiguous_ranges`, and the cluster of an offset, `cluster_from_offset`. The
-- numbers of the clusters and of their offsets in the file are words of 32 bits.
use ultra_os.Common.{
  ℕ, zero, suc, ◌+◌, ◌-◌, ◌*◌, ◌/◌, ◌%◌, ◌^◌, not, ltb, leb, ◌==◌, if◌then◌else◌, List, [], ◌∷◌,
  Option, none, some, length, get_elem?, Result, Fault, assertion, guard, ok, err, ◌>>=◌, ◌>>◌,
}
use ultra_os.Utilities.{lower_bound}
use ultra_os.FileSystem.Fat32.{
  free, reserved, bad, end_of_chain, link, entry_type_of_fat_value, is_link, Volume, fat_entry_at,
}

pub record ContiguousFileRange : Type 0 where
  pub file_offset_cluster : ℕ
  pub global_cluster : ℕ

pub record File : Type 0 where
  pub first_cluster : ℕ
  pub size : ℕ
  pub contiguous_ranges : List ContiguousFileRange

abbrev pub ceiling_divide : ℕ → ℕ → ℕ
ceiling_divide l r = let one = if l == 0 then 0 else 1 in one + (l - one) / r

abbrev pub push_range :
    ContiguousFileRange
    → Option (Result Fault (List ContiguousFileRange))
    → Option (Result Fault (List ContiguousFileRange))
push_range range none = none
push_range range (some (err e)) = some (err e)
push_range range (some (ok ranges)) = some (ok (range ∷ ranges))

-- The loop; `none` is a loop that has not ended. A range that begins at the next cluster gets the offset
-- `current_file_offset + 1`, as in the code.
unfoldable pub ranges_loop :
    ℕ
    → ℕ
    → ℕ
    → ℕ
    → ℕ
    → ContiguousFileRange
    → Volume
    → Option (Result Fault (List ContiguousFileRange))
unfolding entry_type_of_fat_value
ranges_loop zero bytes_per_cluster size current_cluster current_file_offset range v = none
ranges_loop (suc fuel) bytes_per_cluster size current_cluster current_file_offset range v =
    let next_cluster = fat_entry_at current_cluster v in
    let follows = next_cluster == current_cluster + 1 in
    let next_range : ContiguousFileRange = record {
      file_offset_cluster = current_file_offset + 1;
      global_cluster = next_cluster;
    } in
    let rest =
      ranges_loop fuel bytes_per_cluster size next_cluster (current_file_offset + 1)
        (if follows then range else next_range) v in
    elim (entry_type_of_fat_value next_cluster) [
      | free ↦ some (err assertion)
      | reserved ↦ some (err assertion)
      | bad ↦ some (err assertion)
      | end_of_chain ↦ some (do
        guard (leb size (current_file_offset * bytes_per_cluster % 2 ^ 32)) assertion
        ok (range ∷ []))
      | link ↦ if follows then rest else push_range range rest
    ]

unfoldable pub compute_contiguous_ranges : ℕ → ℕ → File → Volume → Option (Result Fault File)
unfolding ranges_loop
compute_contiguous_ranges fuel bytes_per_cluster file v =
    let range : ContiguousFileRange = record {
      file_offset_cluster = 0;
      global_cluster = file.first_cluster;
    } in
    elim (ranges_loop fuel bytes_per_cluster file.size file.first_cluster 1 range v) [
      | none ↦ none
      | some (err e) ↦ some (err e)
      | some (ok ranges) ↦ some (ok (record file { contiguous_ranges = ranges }))
    ]

-- The range that the search ends at, or the one in front of it. A read outside of the array fails here.
abbrev pub range_at : ℕ → List ContiguousFileRange → Result Fault ContiguousFileRange
range_at i ranges = elim (get_elem? ranges i) [ none ↦ err assertion | some range ↦ ok range ]

unfoldable pub cluster_from_offset : ℕ → ℕ → File → Result Fault ℕ
unfolding lower_bound entry_type_of_fat_value
cluster_from_offset bytes_per_cluster offset file = do
  guard (not (length file.contiguous_ranges == 0)) assertion
  guard (ltb offset (ceiling_divide file.size bytes_per_cluster)) assertion
  itr ←
      elim (lower_bound (λ r. ltb offset r.file_offset_cluster)
          (λ r. ltb r.file_offset_cluster offset) file.contiguous_ranges)
        as (λ o. Result Fault ℕ) [ none ↦ err assertion | some i ↦ ok i ]
  let last = if itr == length file.contiguous_ranges then itr - 1 else itr
  range ← range_at last file.contiguous_ranges
  range' ←
      if ltb offset range.file_offset_cluster
      then range_at (last - 1) file.contiguous_ranges
      else ok range
  let global_cluster = (range'.global_cluster + (offset - range'.file_offset_cluster)) % 2 ^ 32
  guard (is_link (entry_type_of_fat_value global_cluster)) assertion
  ok global_cluster
