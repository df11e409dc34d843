-- ===== src/FileSystem/DiskCache/View.antt =====
-- What the cache stands for: the bytes of each block of the file system; and when it is well formed.
use ultra_os.Common.{
  ℕ, ◌+◌, ◌*◌, ◌≤◌, ◌<◌, ◌≡◌, ◌≢◌, ◌⊎◌, true, false, List, [], ◌∷◌, Option, none, some, length, All,
}
use ultra_os.Memory.Range.{contains}
use ultra_os.FileSystem.DiskCache.{
  CachedBlock, DiskCache, block_to_lba_range, block_index_to_cached_index, offset_in_block,
  find_block,
}

-- Where a block stands on the disk.
abbrev pub block_start : DiskCache → ℕ → ℕ
block_start s block = s.fs_lba_range.begin * s.logical_block_size + block * s.fs_block_size

-- A byte of a cached block, or the given one.
abbrev pub byte_or : Option CachedBlock → ℕ → ℕ → ℕ
byte_or none i byte = byte
byte_or (some b) i byte = b.bytes i

-- The byte at an offset of a block: that of the cached block, or that of the disk.
abbrev pub view : DiskCache → ℕ → ℕ → ℕ
view s block offset =
    byte_or (find_block (block_index_to_cached_index block s) s.cached_blocks)
      (offset_in_block block s + offset) (s.disk (block_start s block + offset))

-- A cached block begins at a multiple of the blocks of one input and output, lies in the file system, and
-- agrees with the disk if it is clean.
pub record IsEntry (s : DiskCache) (b : CachedBlock) : Type 0 where
  pub slot : ℕ
  pub aligned : b.first_block ≡ slot * s.fs_blocks_per_io
  pub inside : contains s.fs_lba_range (block_to_lba_range b.first_block s) ≡ true
  pub agrees :
      b.is_dirty ≡ false
      → (i : ℕ) → i < s.io_size
      → b.bytes i ≡ s.disk (block_start s b.first_block + i)

abbrev pub Distinct : List CachedBlock → Type 0
Distinct [] = Unit
Distinct (b ∷ blocks) = All (λ c. c.first_block ≢ b.first_block) blocks × Distinct blocks

-- The sizes that a constructed cache has. The blocks of one input and output are a divisor of a page, which is a power
-- of two.
pub record IsSized (s : DiskCache) : Type 0 where
  pub block_pos : 0 < s.fs_block_size
  pub blocks_pos : 0 < s.fs_blocks_per_io
  pub io : s.io_size ≡ s.fs_blocks_per_io * s.fs_block_size
  pub part : ℕ
  pub blocks_part : s.fs_blocks_per_io * part ≡ 4096
  pub pages : ℕ
  pub page_multiple : s.io_size ≡ pages * 4096
  pub logical : (s.logical_block_size ≡ 512) ⊎ (s.logical_block_size ≡ 4096)
  pub capacity_pos : 0 < s.capacity

pub record IsValid (s : DiskCache) : Type 0 where
  pub sized : IsSized s
  pub within : length s.cached_blocks ≤ s.capacity
  pub entries : All (IsEntry s) s.cached_blocks
  pub distinct : Distinct s.cached_blocks
