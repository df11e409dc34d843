-- ===== src/FileSystem/Fat32/Tests.antt =====
-- Runs on a small volume, and the theorems at it.
use ultra_os.Common.{
  ◌%◌, ℕ, ◌+◌, ◌≤◌, ◌<◌, ◌≡◌, ◌≢◌, ◌⊎◌, refl, arith, true, false, ◌==◌, leb, if◌then◌else◌, List,
  [], ◌∷◌, ◌||◌, length, take, get_elem?, All, some, map, Result, Fault, ok, err, panic,
}
use ultra_os.FileSystem.Fat32.{
  Entries, Volume, free_cluster, calculate_capacity, nth_cluster_in_chain, last_cluster_in_chain,
  allocate_cluster_chain, including_first, free_cluster_chain_starting_at, entry_type_of_fat_value,
}
use ultra_os.FileSystem.Fat32.Files.{File, compute_contiguous_ranges, cluster_from_offset}
use ultra_os.FileSystem.Fat32.Table.{free_from}
use ultra_os.FileSystem.Fat32.Capacity.{calculate_capacity_lem}
use ultra_os.FileSystem.Fat32.Chains.{IsChain, Apart}
use ultra_os.FileSystem.Fat32.Allocate.{candidates, with_chain, allocate_cluster_chain_lem}
use ultra_os.FileSystem.Fat32.Candidates.{IsVolume, IsCandidate}
use ultra_os.FileSystem.Fat32.Allocated.{
  allocate_cluster_chain-IsChain, allocate_cluster_chain-free_cluster_chain,
}
use ultra_os.FileSystem.DiskCache.{DiskCache}
use ultra_os.FileSystem.Fat32.Ranges.{contiguous_ranges-fragmented}

-- Two files: one of the clusters 2 and 3, and one of 5 and 7.
abbrev table : Entries
table i = elim (leb i 7) [
  | false ↦ 0
  | true ↦ if i == 2 then 3 else if i == 5 then 7 else if i == 4 || i == 6 then 0 else 268435455
]

abbrev volume : Volume
volume = record {
  entries = table;
  cluster_count = 10;
  end_of_chain_value = 268435455;
  last_free_cluster = 5;
  free_clusters = 6;
}

volume-IsVolume : IsVolume volume
volume-IsVolume = record {
  zeroth_used = λ e. absurd (ground (arith, e));
  first_used = λ e. absurd (ground (arith, e));
  few = omega arith;
  hint = omega arith;
  ends = omega arith;
}

entries_of : Result Fault (List ℕ × Volume) → List ℕ
entries_of (ok (chain, v)) = map v.entries chain
entries_of (err e) = []

-- From the hint on and then before it; the two clusters 10 and 11 are not looked at.
allocation_run : entries_of (allocate_cluster_chain 4 7 volume) ≡ 8 ∷ 9 ∷ 4 ∷ 268435455 ∷ []
unfolding entries_of allocate_cluster_chain
allocation_run = refl

exhausted_run : allocate_cluster_chain 5 0 volume ≡ err panic
unfolding allocate_cluster_chain
exhausted_run = refl

capacity_run :
    let v = calculate_capacity (record volume { free_clusters = 0 }) in
    (v.free_clusters ≡ 6) × (v.last_free_cluster ≡ 0)
unfolding calculate_capacity
capacity_run = (refl, refl)

following_run :
    (last_cluster_in_chain 3 5 volume ≡ some 7) × (nth_cluster_in_chain 5 1 volume ≡ ok 7)
unfolding last_cluster_in_chain nth_cluster_in_chain
following_run = (refl, refl)

abbrev fragmented : File
fragmented = record { first_cluster = 5; size = 600; contiguous_ranges = [] }

abbrev contiguous : File
contiguous = record { first_cluster = 2; size = 600; contiguous_ranges = [] }

allocate_cluster_chain_lem_example :
    ((2 ≤ length (candidates volume))
      × (allocate_cluster_chain 2 7 volume
          ≡ ok (take 2 (candidates volume), with_chain volume 7 (take 2 (candidates volume)))))
    ⊎ ((length (candidates volume) < 2) × (allocate_cluster_chain 2 7 volume ≡ err panic))
allocate_cluster_chain_lem_example =
    allocate_cluster_chain_lem 2 7 volume (omega arith) (omega arith)
      (λ e. absurd (ground (arith, e))) (λ e. absurd (ground (arith, e)))

calculate_capacity_lem_example :
    let v' = calculate_capacity volume in
    let frees = length (free_from table 10 2) in
    (v'.free_clusters ≡ 6 + frees)
    × (v'.last_free_cluster ≡ (if frees == 0 then 5 else 0))
    × (v'.entries ≡ table)
calculate_capacity_lem_example = calculate_capacity_lem volume

two_candidates : 2 ≤ length (candidates volume)
unfolding free_from
two_candidates = omega arith

allocate_cluster_chain-IsChain_example :
    (c : ℕ) × (cs : List ℕ) × (v' : Volume) × (allocate_cluster_chain 2 7 volume ≡ ok (c ∷ cs, v'))
    × (length (c ∷ cs) ≡ 2)
    × All (IsCandidate volume) (c ∷ cs)
    × Apart (c ∷ cs)
    × IsChain v'.entries (c ∷ cs)
    × (7 ≢ free_cluster → v'.entries 7 ≡ c)
    × ((x : ℕ) → (7 ≢ free_cluster → x ≢ 7) → All (λ d. x ≢ d) (c ∷ cs) → v'.entries x ≡ table x)
    × IsVolume v'
allocate_cluster_chain-IsChain_example =
    allocate_cluster_chain-IsChain 2 7 volume volume-IsVolume (omega arith) (omega arith)
      two_candidates (λ e. absurd (ground (arith, e)))

allocate_cluster_chain-free_cluster_chain_example :
    (c : ℕ) × (cs : List ℕ) × (v' : Volume) × (v'' : Volume) × (allocate_cluster_chain 2
        free_cluster volume
      ≡ ok (c ∷ cs, v'))
    × (free_cluster_chain_starting_at 2 c including_first v' ≡ some v'')
    × ((x : ℕ) → v''.entries x ≡ table x)
allocate_cluster_chain-free_cluster_chain_example =
    allocate_cluster_chain-free_cluster_chain 2 volume volume-IsVolume (omega arith) (omega arith)
      two_candidates

contiguous_ranges-fragmented_example :
    (file' : File) × (compute_contiguous_ranges 2 512 fragmented volume ≡ some (ok file'))
    × (cluster_from_offset 512 1 file' ≡ ok 6)
    × (get_elem? {A = ℕ} (5 ∷ 7 ∷ []) 1 ≢ some 6)
unfolding entry_type_of_fat_value
contiguous_ranges-fragmented_example =
    contiguous_ranges-fragmented 7 512 fragmented volume (refl, refl, refl)
      (λ e. absurd (ground (arith, e))) (omega arith) (omega arith) (omega arith) (omega arith)
      (omega arith) (omega arith)

-- A file of 1500 bytes in the clusters 2 and 3, and an empty cache of data with blocks of 1024 bytes.
abbrev text : File
text = record {
  first_cluster = 2;
  size = 1500;
  contiguous_ranges = record { file_offset_cluster = 0; global_cluster = 2 } ∷ [];
}

abbrev data_cache : DiskCache
data_cache = record {
  fs_lba_range = record { begin = 8; end = 40 };
  io_size = 4096;
  logical_block_size = 512;
  fs_block_size = 1024;
  fs_blocks_per_io = 4;
  capacity = 1;
  offset_within_region = 0;
  cached_blocks = [];
  disk = λ i. i % 7;
}
