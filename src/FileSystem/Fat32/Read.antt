-- ===== src/FileSystem/Fat32/Read.antt =====
-- `File::read` gives the bytes of the file's clusters.
use ultra_os.Common.{ℕ, ◌-◌, ◌/◌, ◌%◌, ◌≤◌, ◌<◌, ◌≡◌, true, ok}
use ultra_os.Memory.Range.{contains}
use ultra_os.FileSystem.DiskCache.{DiskCache, block_to_lba_range, block_index_to_cached_index}
use ultra_os.FileSystem.DiskCache.View.{view}
use ultra_os.FileSystem.Fat32.Files.{File, ceiling_divide, cluster_from_offset}

-- `clusters` gives the file's cluster for each offset in its size; each is a cluster of data, in the file system.
abbrev pub IsLocated : ℕ → (ℕ → ℕ) → File → DiskCache → Type 0
IsLocated bytes_per_cluster clusters file s =
    (k : ℕ)
    → k < ceiling_divide file.size bytes_per_cluster
    → (cluster_from_offset bytes_per_cluster k file ≡ ok (clusters k))
      × (2 ≤ clusters k)
      × (contains s.fs_lba_range
            (block_to_lba_range (block_index_to_cached_index (clusters k - 2) s) s)
          ≡ true)

-- The byte of the file at a place.
abbrev pub byte_at : (ℕ → ℕ) → DiskCache → ℕ → ℕ
byte_at clusters s place = view s (clusters (place / s.fs_block_size) - 2) (place % s.fs_block_size)
