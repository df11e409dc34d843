-- ===== src/Memory/Heap/Tests.antt =====
-- Runs of the heap, and its theorem at a concrete state.
use ultra_os.Common.{some, zero, suc, ℕ, ◌≡◌, ◌≢◌, refl, true, [], ◌∷◌, Any, ok, arith}
use ultra_os.Memory.Heap.{
  allocate_in, HeapBlock, take_chunks, heap_allocate, heap_free, block_contains,
}
use ultra_os.Memory.Heap.Runs.{IsFreeRun}
use ultra_os.Memory.Heap.Available.{allocate_in-available}
use ultra_os.Memory.Heap.Blocks.{Disjoint, heap_allocate-heap_free}

-- Four chunks of 32 bytes and a spare identifier: the first is taken by the identifier 1, and the third by 2.
abbrev block : HeapBlock
block = record {
  begin = 4096;
  chunk_count = 4;
  chunk_size = 32;
  free_chunks = 2;
  ids = 1 ∷ 0 ∷ 2 ∷ 0 ∷ 0 ∷ [];
}

-- The second chunk is between two others, so that its identifier is the third.
abbrev block_after : HeapBlock
block_after = record block { free_chunks = 1; ids = 1 ∷ 3 ∷ 2 ∷ 0 ∷ 0 ∷ [] }

allocates_between : heap_allocate 20 32 (block ∷ []) ≡ ok (block_after ∷ [], 4128)
unfolding heap_allocate take_chunks
allocates_between = refl

heap_allocate-heap_free_example :
    Any (λ heap. block_contains heap 4128 ≡ true) (block ∷ [])
    × ◌≢◌ {A = ℕ} 4128 0
    × (heap_free 4128 (block_after ∷ []) ≡ ok (block ∷ []))
unfolding Disjoint
heap_allocate-heap_free_example =
    heap_allocate-heap_free (block ∷ []) (block_after ∷ []) 20 32 4128
      (record { sized = omega arith; covers = omega arith }, tt) (omega arith, tt)
      ((λ ptr i. absurd i), tt) allocates_between

second_is_free : IsFreeRun block.ids 1 1
second_is_free zero h = refl
second_is_free (suc j) h = absurd (omega arith)

allocate_in-available_example : (r : HeapBlock × ℕ) × (allocate_in 20 32 block ≡ some r)
allocate_in-available_example =
    allocate_in-available block 20 32 1 (record { sized = omega arith; covers = omega arith })
      (omega arith) (omega arith) (omega arith) (omega arith) second_is_free
