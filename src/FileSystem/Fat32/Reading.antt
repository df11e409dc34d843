-- ===== src/FileSystem/Fat32/Reading.antt =====
-- `File::read`, over the data cache of the volume. A read gives the bytes that the user's buffer has got, of which
-- `reach` can be written, or an error. A loop that has not ended is a panic here.
use ultra_os.Common.{
  ℕ, zero, suc, ◌+◌, ◌-◌, ◌*◌, ◌/◌, Bool, true, false, leb, ◌==◌, if◌then◌else◌, List, [], ◌++◌,
  none, some, length, Result, Fault, panic, ok, err, ◌>>=◌,
}
use ultra_os.Memory.Range.{min_of}
use ultra_os.FileSystem.Errors.{ErrorCode}
use ultra_os.FileSystem.DiskCache.{DiskCache, read_one}
use ultra_os.FileSystem.Fat32.{Volume, pure_cluster_value}
use ultra_os.FileSystem.Fat32.Files.{File, compute_contiguous_ranges, cluster_from_offset}

abbrev pub behind_bytes : List ℕ → Result ErrorCode (List ℕ) → Result ErrorCode (List ℕ)
behind_bytes bytes (ok rest) = ok (bytes ++ rest)
behind_bytes bytes (err e) = err e

-- What a round does with what it has got: the error is returned, and so are the bytes if none is left to read.
abbrev pub end_round :
    Result ErrorCode (List ℕ)
    → DiskCache
    → Bool
    → Result Fault (Result ErrorCode (List ℕ) × DiskCache)
    → Result Fault (Result ErrorCode (List ℕ) × DiskCache)
end_round (err e) s last rest = ok (err e, s)
end_round (ok bytes) s true rest = ok (ok bytes, s)
end_round (ok bytes) s false rest = do (others, s') ← rest; ok (behind_bytes bytes others, s')

-- The loop, at a cluster's offset in the file and an offset in the cluster.
unfoldable pub read_clusters :
    ℕ → ℕ → ℕ → ℕ → ℕ → ℕ → File → DiskCache → Result Fault (Result ErrorCode (List ℕ) × DiskCache)
unfolding cluster_from_offset read_one
read_clusters zero bytes_per_cluster reach cluster_offset offset_within_cluster bytes_to_read file
      s =
    err panic
read_clusters (suc fuel) bytes_per_cluster reach cluster_offset offset_within_cluster bytes_to_read
      file s =
    do
      current_cluster ← cluster_from_offset bytes_per_cluster cluster_offset file
      block ← pure_cluster_value current_cluster
      let now = min_of bytes_to_read (bytes_per_cluster - offset_within_cluster)
      (got, s') ← read_one reach block offset_within_cluster now s
      let rest =
          read_clusters fuel bytes_per_cluster (reach - now) (cluster_offset + 1) 0
            (bytes_to_read - now) file s'
      end_round got s' (bytes_to_read - now == 0) rest

-- The ranges of the file, computed if it has none.
abbrev pub with_ranges : ℕ → ℕ → File → Volume → Result Fault File
with_ranges fuel bytes_per_cluster file v =
    if length file.contiguous_ranges == 0
    then elim (compute_contiguous_ranges fuel bytes_per_cluster file v)
        as (λ o. Result Fault File) [ none ↦ err panic | some result ↦ result ]
    else ok file

-- A round of the loop reads a byte at least, but for a read of no bytes, which takes one round.
unfoldable pub file_read :
    ℕ
    → ℕ
    → ℕ
    → ℕ
    → ℕ
    → File
    → Volume
    → DiskCache
    → Result Fault (Result ErrorCode (List ℕ) × File × DiskCache)
unfolding compute_contiguous_ranges read_clusters
file_read fuel bytes_per_cluster reach offset size file v s =
    if leb file.size offset then ok (ok [], file, s) else (do
      file' ← with_ranges fuel bytes_per_cluster file v
      let cluster_offset = offset / bytes_per_cluster
      let offset_within_cluster = offset - cluster_offset * bytes_per_cluster
      let bytes_to_read = min_of size (file.size - offset)
      (got, s') ←
          read_clusters (bytes_to_read + 1) bytes_per_cluster reach cluster_offset
            offset_within_cluster bytes_to_read file' s
      ok (got, file', s'))
