-- ===== src/FileSystem/DiskCache/Slots.antt =====
-- The arithmetic of blocks, cached blocks and logical blocks.
use ultra_os.Common.{
  ℕ, ◌+◌, ◌-◌, ◌*◌, ◌/◌, ◌%◌, ◌≤◌, ◌<◌, ◌≡◌, ◌≢◌, inl, inr, sym, ap, ◌∙◌, compare-cases, arith, ltb,
  if◌then◌else◌, ◌&&◌, ◌==◌, Bool, true, false,
}
use native.Mathlib.Nat.{mul_assoc, mul_comm, mod-add-div, mod-lt, mul-le-mul_right, add-mul}
use ultra_os.Memory.Page.{align_mask}
use ultra_os.FileSystem.DiskCache.{
  DiskCache, block_to_lba_range, block_index_to_cached_index, offset_in_block,
}
use ultra_os.FileSystem.DiskCache.View.{block_start, IsSized}

lba_512 :
    (lbs begin bytes io q p : ℕ) (small : Bool)
    → lbs ≡ 512
    → bytes ≡ q * 4096
    → io ≡ p * 4096
    → let lba = if small then align_mask 8 (bytes / lbs) else bytes / lbs in
      ((begin + lba) * lbs ≡ begin * lbs + bytes)
      × ((begin + lba + io / lbs - (begin + lba)) * lbs ≡ io)
lba_512 lbs begin bytes io q p true e f g = rw e (omega arith, omega arith)
lba_512 lbs begin bytes io q p false e f g = rw e (omega arith, omega arith)

lba_4096 :
    (lbs begin bytes io q p : ℕ) (small : Bool)
    → lbs ≡ 4096
    → small ≡ false
    → bytes ≡ q * 4096
    → io ≡ p * 4096
    → let lba = if small then align_mask 8 (bytes / lbs) else bytes / lbs in
      ((begin + lba) * lbs ≡ begin * lbs + bytes)
      × ((begin + lba + io / lbs - (begin + lba)) * lbs ≡ io)
lba_4096 lbs begin bytes io q p true e n f g = absurd (ground (arith, n))
lba_4096 lbs begin bytes io q p false e n f g = rw e (omega arith, omega arith)

-- A cached block's logical blocks begin where it stands on the disk, and are as long as a request.
pub lba_range_lem :
    (s : DiskCache) (first slot : ℕ)
    → IsSized s
    → first ≡ slot * s.fs_blocks_per_io
    → ((block_to_lba_range first s).begin * s.logical_block_size ≡ block_start s first)
      × (((block_to_lba_range first s).end - (block_to_lba_range first s).begin)
            * s.logical_block_size
          ≡ s.io_size)
lba_range_lem s first slot z e =
    let bytes : first * s.fs_block_size ≡ slot * z.pages * 4096 =
      ap (λ (x : ℕ). x * s.fs_block_size) e
      ∙ mul_assoc slot s.fs_blocks_per_io s.fs_block_size
      ∙ ap (λ (x : ℕ). slot * x) (sym z.io ∙ z.page_multiple)
      ∙ sym (mul_assoc slot z.pages 4096) in
    let small = ltb s.fs_block_size s.io_size && s.logical_block_size == 512 in
    elim z.logical [
      | inl e512 ↦
          lba_512 s.logical_block_size s.fs_lba_range.begin (first * s.fs_block_size) s.io_size
            (slot * z.pages) z.pages small e512 bytes z.page_multiple
      | inr e4096 ↦
          lba_4096 s.logical_block_size s.fs_lba_range.begin (first * s.fs_block_size) s.io_size
            (slot * z.pages) z.pages small e4096 (ground arith) bytes z.page_multiple
    ]

-- The cached index of a block is a multiple, and the block stands in the request from there.
pub cached_index_lem :
    (s : DiskCache) (block : ℕ)
    → IsSized s
    → (slot : ℕ) × (block_index_to_cached_index block s ≡ slot * s.fs_blocks_per_io)
      × (block_index_to_cached_index block s ≤ block)
      × (block < block_index_to_cached_index block s + s.fs_blocks_per_io)
cached_index_lem s block z =
    let n = s.fs_blocks_per_io in
    let whole : block % n + n * (block / n) ≡ block = mod-add-div block n in
    let low : block % n < n = mod-lt block z.blocks_pos in
    let swap : n * (block / n) ≡ block / n * n = mul_comm n (block / n) in
    (block / n, omega (arith, whole, swap), omega arith, omega (arith, whole, low))

within_product : (j n size offset : ℕ) → j < n → offset < size → j * size + offset < n * size
within_product j n size offset h k =
    let more : (j + 1) * size ≤ n * size = mul-le-mul_right size (omega arith) in
    omega (arith, more, add-mul j 1 size)

-- Requests at different multiples do not meet.
pub products_apart :
    (k k' size i i' : ℕ) → k ≢ k' → i < size → i' < size → k * size + i ≢ k' * size + i'
products_apart k k' size i i' ne h h' e = elim (compare-cases k k') [
  | inl lt ↦
      (let more : (k + 1) * size ≤ k' * size = mul-le-mul_right size (omega arith) in
        omega (arith, more, add-mul k 1 size, e))
  | inr (inl same) ↦ ne same
  | inr (inr gt) ↦
      (let more : (k' + 1) * size ≤ k * size = mul-le-mul_right size (omega arith) in
        omega (arith, more, add-mul k' 1 size, e))
]

-- A block in its cached block: its bytes stand in the request, and on the disk where it does.
pub in_slot :
    (s : DiskCache) (block offset : ℕ)
    → IsSized s
    → offset < s.fs_block_size
    → let index = block_index_to_cached_index block s in
      (offset_in_block block s + offset < s.io_size)
      × (block_start s index + (offset_in_block block s + offset) ≡ block_start s block + offset)
in_slot s block offset z h =
    let (slot, e, low, high) = cached_index_lem s block z in
    let index = block_index_to_cached_index block s in
    let j = block - index in
    let small : j * s.fs_block_size + offset < s.fs_blocks_per_io * s.fs_block_size =
      within_product j s.fs_blocks_per_io s.fs_block_size offset (omega (arith, high, low)) h in
    let parts : block * s.fs_block_size ≡ index * s.fs_block_size + j * s.fs_block_size =
      ap (λ (x : ℕ). x * s.fs_block_size) (omega (arith, low)) ∙ add-mul index j s.fs_block_size in
    (omega (arith, small, z.io), omega (arith, parts))

-- Of two multiples, the places on the disk are apart.
pub slots_apart :
    (s : DiskCache) (first first' slot slot' i i' : ℕ)
    → IsSized s
    → first ≡ slot * s.fs_blocks_per_io
    → first' ≡ slot' * s.fs_blocks_per_io
    → first ≢ first'
    → i < s.io_size
    → i' < s.io_size
    → block_start s first + i ≢ block_start s first' + i'
slots_apart s first first' slot slot' i i' z e e' ne h h' q =
    let at : first * s.fs_block_size ≡ slot * s.io_size =
      ap (λ (x : ℕ). x * s.fs_block_size) e
      ∙ mul_assoc slot s.fs_blocks_per_io s.fs_block_size
      ∙ ap (λ (x : ℕ). slot * x) (sym z.io) in
    let at' : first' * s.fs_block_size ≡ slot' * s.io_size =
      ap (λ (x : ℕ). x * s.fs_block_size) e'
      ∙ mul_assoc slot' s.fs_blocks_per_io s.fs_block_size
      ∙ ap (λ (x : ℕ). slot' * x) (sym z.io) in
    products_apart slot slot' s.io_size i i'
      (λ same. ne (e ∙ ap (λ (x : ℕ). x * s.fs_blocks_per_io) same ∙ sym e')) h h'
      (omega (arith, at, at', q))
