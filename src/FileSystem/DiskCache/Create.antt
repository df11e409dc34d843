-- ===== src/FileSystem/DiskCache/Create.antt =====
-- The constructor: a cache with nothing in it, that stands for the disk.
use ultra_os.Common.{
  ℕ, ◌+◌, ◌*◌, ◌/◌, ◌%◌, ◌≤◌, ◌<◌, ◌≡◌, ◌⊎◌, inl, inr, refl, sym, subst, arith, leb, ◌==◌, ◌||◌,
  true, false, [], ok,
}
use native.Mathlib.Nat.{
  zero-mod, div-one, div_self, div-eq_of_eq-mul_left, le_of_mul-le-mul_right, le-div_iff_mul-le,
}
use ultra_os.Memory.Page.{page_size}
use ultra_os.Memory.Range.{Range}
use ultra_os.FileSystem.DiskCache.{Bytes, DiskCache, create, find_block}
use ultra_os.FileSystem.DiskCache.View.{view, IsValid}

-- The cache for an input and output size and the blocks in it.
abbrev constructed : ℕ → Range → ℕ → ℕ → ℕ → ℕ → Bytes → DiskCache
constructed logical_block_size range fs_block_size io_size blocks capacity disk = record {
  fs_lba_range = range;
  io_size = io_size;
  logical_block_size = logical_block_size;
  fs_block_size = fs_block_size;
  fs_blocks_per_io = blocks;
  capacity = capacity;
  offset_within_region = 0;
  cached_blocks = [];
  disk = disk;
}

large :
    (logical_block_size fs_block_size capacity pages : ℕ) (range : Range) (disk : Bytes)
    → (logical_block_size ≡ 512) ⊎ (logical_block_size ≡ 4096)
    → 0 < pages
    → fs_block_size ≡ pages * 4096
    → 0 < capacity
    → create false logical_block_size range fs_block_size capacity disk
      ≡ ok (constructed logical_block_size range fs_block_size fs_block_size 1 capacity disk)
unfolding create
large logical_block_size fs_block_size capacity pages range disk logical p e c =
    let big : leb page_size fs_block_size ≡ true = ground (arith, p, e) in
    let blocks : fs_block_size / fs_block_size ≡ 1 = div_self (omega (arith, p, e)) in
    let aligned : (fs_block_size % page_size == 0) ≡ true = ground (arith, e) in
    let whole : capacity / 1 ≡ capacity = div-one capacity in
    let some_capacity : (capacity == 0) ≡ false = ground (arith, c) in
    let sector : (logical_block_size == 512 || logical_block_size == 4096) ≡ true =
      ground (arith, logical) in
    rw (some_capacity, sector, big, aligned, blocks, whole, some_capacity) refl

small :
    (logical_block_size fs_block_size capacity blocks : ℕ) (range : Range) (disk : Bytes)
    → (logical_block_size ≡ 512) ⊎ (logical_block_size ≡ 4096)
    → fs_block_size < 4096
    → blocks * fs_block_size ≡ 4096
    → 0 < capacity
    → 0 < capacity / blocks
    → create false logical_block_size range fs_block_size capacity disk
      ≡ ok (constructed logical_block_size range fs_block_size 4096 blocks (capacity / blocks) disk)
unfolding create
small logical_block_size fs_block_size capacity blocks range disk logical less e c room =
    let little : leb page_size fs_block_size ≡ false = ground (arith, less) in
    let pos : 0 < fs_block_size = ground (arith, e) in
    let count : 4096 / fs_block_size ≡ blocks = div-eq_of_eq-mul_left pos (sym e) in
    let zero_rest : 0 % fs_block_size ≡ 0 = zero-mod fs_block_size in
    let some_capacity : (capacity == 0) ≡ false = ground (arith, c) in
    let some_room : (capacity / blocks == 0) ≡ false = ground (arith, room) in
    let sector : (logical_block_size == 512 || logical_block_size == 4096) ≡ true =
      ground (arith, logical) in
    rw (some_capacity, sector, little, zero_rest, count, some_room) refl

-- A file system's block is whole pages, or a page is a number of them.
abbrev pub IsBlockSize : ℕ → Type 0
IsBlockSize size =
    ((pages : ℕ) × (0 < pages) × (size ≡ pages * 4096))
    ⊎ ((blocks : ℕ) × (size < 4096) × (blocks * size ≡ 4096))

-- Where a block is whole pages or a page is a number of blocks, and the capacity fills a page, the constructor of a
-- cache of a device that is not RAM succeeds: the cache is valid and stands for the bytes of the disk.
pub create_lem :
    (logical_block_size : ℕ) (range : Range) (fs_block_size capacity : ℕ) (disk : Bytes)
    → (logical_block_size ≡ 512) ⊎ (logical_block_size ≡ 4096)
    → IsBlockSize fs_block_size
    → 4096 ≤ capacity * fs_block_size
    → (s : DiskCache) × (create false logical_block_size range fs_block_size capacity disk ≡ ok s)
      × IsValid s
      × ((block offset : ℕ)
          → view s block offset
            ≡ disk (range.begin * logical_block_size + block * fs_block_size + offset))
unfolding find_block
create_lem logical_block_size range fs_block_size capacity disk logical size filled =
    let c : 0 < capacity = ground (arith, filled) in
    elim size [
      | inl (pages, p, e) ↦ (
        constructed logical_block_size range fs_block_size fs_block_size 1 capacity disk,
        large logical_block_size fs_block_size capacity pages range disk logical p e c,
        record {
          sized = record {
            block_pos = omega (arith, p, e);
            blocks_pos = omega arith;
            io = omega arith;
            part = 4096;
            blocks_part = refl;
            pages = pages;
            page_multiple = e;
            logical = logical;
            capacity_pos = c;
          };
          within = omega arith;
          entries = tt;
          distinct = tt;
        },
        λ block offset. refl,
      )
      | inr (blocks, less, e) ↦
          (let pos : 0 < blocks = ground (arith, e) in
            let small_pos : 0 < fs_block_size = ground (arith, e) in
            let enough : blocks ≤ capacity =
              le_of_mul-le-mul_right {m = blocks} {n = capacity} {k = fs_block_size}
                (subst (λ (x : ℕ). x ≤ capacity * fs_block_size) (sym e) filled) small_pos in
            let room : 0 < capacity / blocks = (le-div_iff_mul-le pos).1 (omega (arith, enough)) in
            (
              constructed logical_block_size range fs_block_size 4096 blocks (capacity / blocks)
                  disk,
              small logical_block_size fs_block_size capacity blocks range disk logical less e c
                  room,
              record {
                sized = record {
                  block_pos = small_pos;
                  blocks_pos = pos;
                  io = sym e;
                  part = fs_block_size;
                  blocks_part = e;
                  pages = 1;
                  page_multiple = refl;
                  logical = logical;
                  capacity_pos = room;
                };
                within = omega arith;
                entries = tt;
                distinct = tt;
              },
              λ block offset. refl,
            ))
    ]
