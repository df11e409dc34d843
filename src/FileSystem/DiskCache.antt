-- ===== src/FileSystem/DiskCache.antt =====
-- Kernel/FileSystem/DiskCache.{h,cpp}: the cache of disk blocks. A device is the function from the address of
-- a byte to the byte, and a request moves bytes at once. The map from first blocks to cached blocks holds the
-- blocks of the list, so that a lookup in it is a search of the list. A buffer is the function from
-- offsets to bytes. Requests to the device succeed. `reach` is how many bytes of the user's buffer `safe_copy_memory` gets through.
pub mod View
pub mod Slots
pub mod Cached
pub mod Evict
pub mod Lookup
pub mod Access
pub mod Create
pub mod Transfer
pub mod Flush
mod Tests
use ultra_os.Common.{
  ℕ, zero, suc, ◌+◌, ◌-◌, ◌*◌, ◌/◌, ◌%◌, Bool, true, false, not, ◌&&◌, ◌||◌, ltb, leb, ◌==◌,
  if◌then◌else◌, List, [], ◌∷◌, Option, none, some, length, get_or, tabulate, Result, Fault,
  assertion, guard, ok, err, ◌>>=◌, ◌>>◌,
}
use ultra_os.Memory.Page.{page_size, align_mask}
use ultra_os.Memory.Range.{Range, contains, min_of}
use ultra_os.FileSystem.Errors.{ErrorCode, memory_access_violation}

abbrev pub Bytes : Type 0
Bytes = ℕ → ℕ

pub record CachedBlock : Type 0 where
  pub first_block : ℕ
  pub is_dirty : Bool
  pub bytes : Bytes

pub record DiskCache : Type 0 where
  pub fs_lba_range : Range
  pub io_size : ℕ
  pub logical_block_size : ℕ
  pub fs_block_size : ℕ
  pub fs_blocks_per_io : ℕ
  pub capacity : ℕ
  pub offset_within_region : ℕ
  pub cached_blocks : List CachedBlock
  pub disk : Bytes

abbrev pub no_caching_required : ℕ
no_caching_required = 0

-- The constructor; the device says whether it is RAM, and the size of its logical blocks. The assertion on the
-- input and output size stands in front of its assignment, and is on 0.
unfoldable pub create : Bool → ℕ → Range → ℕ → ℕ → Bytes → Result Fault DiskCache
create is_ram logical_block_size lba_range fs_block_size block_capacity disk = do
  guard (not (block_capacity == 0)) assertion
  guard (logical_block_size == 512 || logical_block_size == 4096) assertion
  let initial : DiskCache = record {
    fs_lba_range = lba_range;
    io_size = 0;
    logical_block_size = logical_block_size;
    fs_block_size = fs_block_size;
    fs_blocks_per_io = 0;
    capacity = block_capacity;
    offset_within_region = 0;
    cached_blocks = [];
    disk = disk;
  }
  (if is_ram then ok initial else (do
    guard
        (if leb page_size fs_block_size
          then fs_block_size % page_size == 0
          else 0 % fs_block_size == 0)
        assertion
    let io_size = if leb page_size fs_block_size then fs_block_size else page_size
    let blocks_per_io = io_size / fs_block_size
    let capacity = block_capacity / blocks_per_io
    guard (not (capacity == 0)) assertion
    ok (record initial {
      io_size = io_size;
      fs_blocks_per_io = blocks_per_io;
      capacity = capacity;
    })))

abbrev pub block_to_first_lba : ℕ → DiskCache → ℕ
block_to_first_lba block_index s = block_index * s.fs_block_size / s.logical_block_size

abbrev pub block_to_lba_range : ℕ → DiskCache → Range
block_to_lba_range block_index s =
    let lba = block_to_first_lba block_index s in
    let lba' =
      if ltb s.fs_block_size s.io_size && s.logical_block_size == 512
      then align_mask 8 lba
      else lba in
    record {
      begin = s.fs_lba_range.begin + lba';
      end = s.fs_lba_range.begin + lba' + s.io_size / s.logical_block_size;
    }

-- `block_index & ~(blocks - 1)`, of a power of two.
abbrev pub block_index_to_cached_index : ℕ → DiskCache → ℕ
block_index_to_cached_index block_index s = align_mask s.fs_blocks_per_io block_index

-- A read of logical blocks, and a write.
abbrev pub read_lbas : Range → DiskCache → Bytes
read_lbas lbas s i = s.disk (lbas.begin * s.logical_block_size + i)

abbrev pub write_at : Bytes → ℕ → ℕ → Bytes → Bytes
write_at disk begin count bytes a =
    if leb begin a && ltb a (begin + count) then bytes (a - begin) else disk a

abbrev pub write_lbas : Range → Bytes → DiskCache → DiskCache
write_lbas lbas bytes s = record s {
  disk =
      write_at s.disk (lbas.begin * s.logical_block_size)
        ((lbas.end - lbas.begin) * s.logical_block_size) bytes;
}

-- `m_block_to_cache.find`, and `pop_off` of what it finds.
unfoldable pub find_block : ℕ → List CachedBlock → Option CachedBlock
find_block index [] = none
find_block index (b ∷ blocks) = if b.first_block == index then some b else find_block index blocks

unfoldable pub pop_off : ℕ → List CachedBlock → List CachedBlock
pop_off index [] = []
pop_off index (b ∷ blocks) = if b.first_block == index then blocks else b ∷ pop_off index blocks

unfoldable pub pop_back : List CachedBlock → Option (List CachedBlock × CachedBlock)
pop_back [] = none
pop_back (b ∷ blocks) = elim (pop_back blocks) [
  | none ↦ some ([], b)
  | some (rest, last) ↦ some (b ∷ rest, last)
]

-- `flush_block`: the state with the bytes written, if there is something to write; the block is clean then.
unfoldable pub flush_block : CachedBlock → DiskCache → Result Fault DiskCache
flush_block b s = if not b.is_dirty then ok s else (do
  guard (contains s.fs_lba_range (block_to_lba_range b.first_block s)) assertion
  ok (write_lbas (block_to_lba_range b.first_block s) b.bytes s))

unfoldable pub evict_one : DiskCache → Result Fault DiskCache
unfolding pop_back flush_block
evict_one s = elim (pop_back s.cached_blocks) [
  | none ↦ err assertion
  | some (rest, b) ↦ (do s' ← flush_block b s; ok (record s' { cached_blocks = rest }))
]

abbrev pub allocate_next_block_buffer : DiskCache → DiskCache
allocate_next_block_buffer s = record s {
  offset_within_region = s.offset_within_region + s.io_size;
}

-- `cached_block`: the block is at the front of the list afterwards.
unfoldable pub cached_block : ℕ → DiskCache → Result Fault (CachedBlock × DiskCache)
unfolding find_block pop_off evict_one
cached_block block_index s =
    let index = block_index_to_cached_index block_index s in
    elim (find_block index s.cached_blocks) [
      | some b ↦ ok (b, record s { cached_blocks = b ∷ pop_off index s.cached_blocks })
      | none ↦ (do
        s' ←
            if length s.cached_blocks == s.capacity
            then evict_one s
            else ok (allocate_next_block_buffer s)
        guard (contains s'.fs_lba_range (block_to_lba_range index s')) assertion
        let b : CachedBlock = record {
          first_block = index;
          is_dirty = false;
          bytes = read_lbas (block_to_lba_range index s') s';
        }
        ok (b, record s' { cached_blocks = b ∷ s'.cached_blocks }))
    ]

-- Where the file system's block stands in its cached block.
abbrev pub offset_in_block : ℕ → DiskCache → ℕ
offset_in_block block_index s =
    (block_index - block_index_to_cached_index block_index s) * s.fs_block_size

-- A store into the buffer of the block at the front.
abbrev pub store_front : CachedBlock → Bytes → DiskCache → DiskCache
store_front b bytes s = elim s.cached_blocks [
  | [] ↦ s
  | b' ∷ rest ↦ record s { cached_blocks = record b { is_dirty = true; bytes = bytes } ∷ rest }
]

-- The bytes that the user's buffer has got, or the error.
unfoldable pub read_one :
    ℕ → ℕ → ℕ → ℕ → DiskCache → Result Fault (Result ErrorCode (List ℕ) × DiskCache)
unfolding cached_block
read_one reach block_index offset count s = do
  guard (leb (offset + count) s.fs_block_size) assertion
  (if s.io_size == no_caching_required
      then ok (ok (tabulate count (λ i. s.disk (offset + block_index * s.fs_block_size + i))), s)
      else (do
        (b, s') ← cached_block block_index s
        let from = offset_in_block block_index s + offset
        (if ltb reach count
            then ok (err memory_access_violation, s')
            else ok (ok (tabulate count (λ i. b.bytes (from + i))), s'))))

-- The request that a RAM disk is sent is a read into the user's buffer, as in the code: the device is not written.
unfoldable pub write_one :
    ℕ → ℕ → ℕ → List ℕ → DiskCache → Result Fault (Result ErrorCode (Unit {0}) × DiskCache)
unfolding cached_block
write_one reach block_index offset input s = do
  guard (leb (offset + length input) s.fs_block_size) assertion
  (if s.io_size == no_caching_required then ok (ok tt, s) else (do
    (b, s') ← cached_block block_index s
    let from = offset_in_block block_index s + offset
    let copied = min_of reach (length input)
    let bytes = write_at b.bytes from copied (λ i. get_or input i 0)
    (if ltb reach (length input)
        then ok (err memory_access_violation, store_front b bytes s')
        else ok (ok tt, store_front b bytes s'))))

unfoldable pub zero_fill_one : ℕ → DiskCache → Result Fault DiskCache
unfolding cached_block
zero_fill_one block_index s =
    if s.io_size == no_caching_required
    then ok (record s {
      disk = write_at s.disk (block_index * s.fs_block_size) s.fs_block_size (λ i. 0);
    })
    else (do
      (b, s') ← cached_block block_index s
      ok (
          store_front b (write_at b.bytes (offset_in_block block_index s) s.fs_block_size (λ i. 0))
            s'))

abbrev pub clean : CachedBlock → CachedBlock
clean b = record b { is_dirty = false }

-- The loop of `flush_all`: the blocks, which are clean then, and the state.
unfoldable pub flush_blocks :
    List CachedBlock → DiskCache → Result Fault (List CachedBlock × DiskCache)
unfolding flush_block
flush_blocks [] s = ok ([], s)
flush_blocks (b ∷ blocks) s = do
  s' ← flush_block b s
  (rest, s'') ← flush_blocks blocks s'
  ok (clean b ∷ rest, s'')

unfoldable pub flush_all : DiskCache → Result Fault DiskCache
unfolding flush_blocks
flush_all s = if s.io_size == no_caching_required then ok s else (do
  (blocks, s') ← flush_blocks s.cached_blocks s
  ok (record s' { cached_blocks = blocks }))

unfoldable pub mark_clean : ℕ → List CachedBlock → List CachedBlock
mark_clean index [] = []
mark_clean index (b ∷ blocks) =
    if b.first_block == index then clean b ∷ blocks else b ∷ mark_clean index blocks

unfoldable pub flush_specific : ℕ → DiskCache → Result Fault DiskCache
unfolding find_block flush_block mark_clean
flush_specific block_index s =
    let index = block_index_to_cached_index block_index s in
    if s.io_size == no_caching_required then ok s else elim (find_block index s.cached_blocks) [
      | none ↦ ok s
      | some b ↦ (do
        s' ← flush_block b s
        ok (record s' { cached_blocks = mark_clean index s'.cached_blocks }))
    ]
