-- ===== src/Memory/Heap.antt =====
-- Kernel/Memory/HeapAllocator.{h,cpp}: the heap of the kernel. The bitmap of a block is the list of the
-- two-bit identifiers of its chunks, 0 for a free one; a bit index `i` stands for the chunk `i / 2`,
-- and the bitmap may have spare identifiers. A read past the bitmap, where the code reads the data behind
-- it, reads 0 here; the theorems are on bitmaps where this does not happen. The refill, which asks the memory manager
-- for a block, and the locks are left out; a pointer is its address.
pub mod Runs
pub mod RoundTrip
pub mod Blocks
pub mod Available
mod Tests
use ultra_os.Common.{
  ℕ, zero, suc, ◌+◌, ◌-◌, ◌*◌, ◌/◌, ◌%◌, ◌<◌, Bool, true, false, not, ◌&&◌, ◌||◌, ltb, leb, ◌==◌,
  if◌then◌else◌, List, [], ◌∷◌, Option, none, some, get_or, set, Result, Fault, panic, guard, ok,
  err, ◌>>=◌, ◌>>◌,
}
use ultra_os.Memory.Page.{align_mask}
use ultra_os.Memory.Range.{max_of}

pub record HeapBlock : Type 0 where
  pub begin : ℕ
  pub chunk_count : ℕ
  pub chunk_size : ℕ
  pub free_chunks : ℕ
  pub ids : List ℕ

abbrev pub free_bytes : HeapBlock → ℕ
free_bytes heap = heap.free_chunks * heap.chunk_size

-- `contains`, which takes the end in.
abbrev pub block_contains : HeapBlock → ℕ → Bool
block_contains heap ptr =
    leb ptr (heap.begin + heap.chunk_count * heap.chunk_size) && leb heap.begin ptr

abbrev pub which_bit : HeapBlock → ℕ → ℕ
which_bit heap ptr = (ptr - heap.begin) / heap.chunk_size * 2

abbrev pub id_at : List ℕ → ℕ → ℕ
id_at ids i = get_or ids (i / 2) 0

-- The step over the chunks to the next aligned one, and on by the loop.
abbrev pub skip_ahead : ℕ → ℕ → ℕ → ℕ
skip_ahead bits_per_aligned_block aligned_offset i =
    if ltb 2 bits_per_aligned_block
    then align_mask bits_per_aligned_block (i - aligned_offset + bits_per_aligned_block)
      + aligned_offset
    else i + 2

-- The `for` loop over the bitmap: `at_bit` if enough chunks in a row are free. A round moves on by a chunk
-- at least, so there are at most `chunk_count` rounds.
unfoldable pub find_chunks : ℕ → HeapBlock → ℕ → ℕ → ℕ → ℕ → ℕ → ℕ → Option ℕ
find_chunks zero heap chunks_needed bits_per_aligned_block aligned_offset i current_free_block
      at_bit =
    none
find_chunks (suc fuel) heap chunks_needed bits_per_aligned_block aligned_offset i current_free_block
      at_bit =
    let at_bit' = if current_free_block + 1 == 1 then i else at_bit in
    let onward =
      find_chunks fuel heap chunks_needed bits_per_aligned_block aligned_offset (i + 2)
        (current_free_block + 1) at_bit' in
    let restart =
      find_chunks fuel heap chunks_needed bits_per_aligned_block aligned_offset
        (skip_ahead bits_per_aligned_block aligned_offset i) 0 0 in
    if not (ltb i (heap.chunk_count * 2))
    then none
    else if id_at heap.ids i == 0
    then (if current_free_block + 1 == chunks_needed then some at_bit' else onward)
    else restart

-- `for (; this_id == left_neighbor || this_id == right_neighbor || !this_id; ++this_id)`, from 0.
abbrev pub taken_id : ℕ → ℕ → ℕ → Bool
taken_id left right id = id == left || id == right || id == 0

abbrev pub unique_id : ℕ → ℕ → ℕ
unique_id left right =
    if not (taken_id left right 1) then 1 else if not (taken_id left right 2) then 2 else 3

-- The loop that marks chunks; they are free, so that `|=` stores the identifier.
unfoldable pub mark : ℕ → ℕ → ℕ → List ℕ → List ℕ
mark zero chunk id ids = ids
mark (suc n) chunk id ids = mark n (chunk + 1) id (set ids chunk id)

abbrev pub chunks_for : ℕ → HeapBlock → ℕ
chunks_for bytes heap = 1 + (bytes - 1) / heap.chunk_size

abbrev pub offset_for : ℕ → HeapBlock → ℕ
offset_for alignment heap =
    if ltb heap.chunk_size alignment && not (heap.begin % alignment == 0)
    then (alignment - heap.begin % alignment) / heap.chunk_size * 2
    else 0

-- What follows the search, at the bit that it found: the block, and the address.
unfoldable pub take_chunks : HeapBlock → ℕ → ℕ → HeapBlock × ℕ
unfolding mark
take_chunks heap chunks_needed at_bit =
    let left = if at_bit == 0 then 0 else id_at heap.ids (at_bit - 2) in
    let right =
      if ltb (at_bit / 2) heap.chunk_count
      then id_at heap.ids (at_bit + chunks_needed * 2)
      else 0 in
    (
      record heap {
        free_chunks = heap.free_chunks - chunks_needed;
        ids = mark chunks_needed (at_bit / 2) (unique_id left right) heap.ids;
      },
      heap.begin + at_bit / 2 * heap.chunk_size,
    )

-- One round of the loop over the blocks.
unfoldable pub allocate_in : ℕ → ℕ → HeapBlock → Option (HeapBlock × ℕ)
unfolding find_chunks
allocate_in bytes alignment heap =
    if ltb (free_bytes heap) bytes
    then none
    else elim (find_chunks (heap.chunk_count + 1) heap (chunks_for bytes heap)
        (max_of (alignment / heap.chunk_size * 2) 2) (offset_for alignment heap)
        (offset_for alignment heap) 0 0) [
          | none ↦ none
          | some at_bit ↦ some (take_chunks heap (chunks_for bytes heap) at_bit)
        ]

-- The loop that frees: how many chunks, and the identifiers afterwards. The run ends at the end of the list.
unfoldable pub clear_run : ℕ → ℕ → ℕ → List ℕ → ℕ × List ℕ
clear_run zero chunk id ids = (0, ids)
clear_run (suc fuel) chunk id ids =
    let rest = clear_run fuel (chunk + 1) id (set ids chunk 0) in
    if get_or ids chunk 0 == id then (rest.0 + 1, rest.1) else (0, ids)

-- What `free` does to the block that contains the pointer.
unfoldable pub free_in : ℕ → HeapBlock → Result Fault HeapBlock
unfolding clear_run
free_in ptr heap = do
  let chunk = which_bit heap ptr / 2
  let allocation_id = get_or heap.ids chunk 0
  guard (not (allocation_id == 0)) panic
  let cleared = clear_run (heap.chunk_count + 1) chunk allocation_id heap.ids
  ok (record heap { free_chunks = heap.free_chunks + cleared.0; ids = cleared.1 })

-- The loop of `free` over the blocks.
unfoldable pub free_from : ℕ → List HeapBlock → Result Fault (List HeapBlock)
unfolding free_in
free_from ptr [] = err panic
free_from ptr (heap ∷ heaps) =
    if block_contains heap ptr
    then (do heap' ← free_in ptr heap; ok (heap' ∷ heaps))
    else (do heaps' ← free_from ptr heaps; ok (heap ∷ heaps'))

-- The loop of `allocate` over the blocks, after the tests of its arguments.
unfoldable pub allocate_from : ℕ → ℕ → List HeapBlock → Result Fault (List HeapBlock × ℕ)
unfolding allocate_in
allocate_from bytes alignment [] = err panic
allocate_from bytes alignment (heap ∷ heaps) = elim (allocate_in bytes alignment heap) [
  | some (heap', ptr) ↦ ok (heap' ∷ heaps, ptr)
  | none ↦ (do (heaps', ptr) ← allocate_from bytes alignment heaps; ok (heap ∷ heaps', ptr))
]

-- `count_set_bits`, of the 64 bits of a word.
unfoldable pub set_bits_of : ℕ → ℕ → ℕ
set_bits_of zero number = 0
set_bits_of (suc bits) number = number % 2 + set_bits_of bits (number / 2)

abbrev pub upper_allocation_threshold : ℕ
upper_allocation_threshold = 2 * 1048576

-- `allocate`, without the refill.
unfoldable pub heap_allocate : ℕ → ℕ → List HeapBlock → Result Fault (List HeapBlock × ℕ)
unfolding allocate_from set_bits_of
heap_allocate bytes alignment heaps = do
  guard (not (bytes == 0 || ltb upper_allocation_threshold bytes)) panic
  guard (not (not (set_bits_of 64 alignment == 1) || ltb 4096 alignment)) panic
  allocate_from bytes alignment heaps

-- `free`; a null pointer is ignored.
unfoldable pub heap_free : ℕ → List HeapBlock → Result Fault (List HeapBlock)
unfolding free_from
heap_free ptr heaps = if ptr == 0 then ok heaps else free_from ptr heaps
