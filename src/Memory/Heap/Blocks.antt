-- ===== src/Memory/Heap/Blocks.antt =====
-- The heap as a list of blocks.
use ultra_os.Common.{
  ℕ, ◌*◌, ◌≤◌, ◌<◌, ◌≡◌, ◌≢◌, refl, subst, inl, inr, true, false, ◌==◌, List, [], ◌∷◌, some,
  Option-cases, Result-cases, ok, All, Any, arith,
}
use ultra_os.Memory.Heap.{
  HeapBlock, allocate_in, allocate_from, free_from, heap_allocate, heap_free, block_contains,
  chunks_for,
}
use ultra_os.Memory.Heap.RoundTrip.{IsValid, Allocated, allocate_in-free_in}

-- No pointer lies in two blocks.
unfoldable pub Disjoint : List HeapBlock → Type 0
Disjoint [] = Unit
Disjoint (heap ∷ heaps) =
    ((ptr : ℕ)
      → Any (λ other. block_contains other ptr ≡ true) heaps
      → block_contains heap ptr ≡ false)
    × Disjoint heaps

contains_pointer :
    (heap heap' : HeapBlock) (n ptr k : ℕ)
    → Allocated heap n heap' ptr k
    → (block_contains heap ptr ≡ true) × (block_contains heap' ptr ≡ true)
contains_pointer heap heap' n ptr k a =
    let low : k * heap.chunk_size ≤ heap.chunk_count * heap.chunk_size = grind (arith, a.inside) in
    let first : block_contains heap ptr ≡ true = ground (arith, a.pointer, low) in
    (first, ground (arith, first, a.place))

abbrev Served : List HeapBlock → List HeapBlock × ℕ → Type 0
Served heaps r = Any (λ heap. block_contains heap r.1 ≡ true) heaps × (free_from r.1 r.0 ≡ ok heaps)

here :
    (heap : HeapBlock) (heaps : List HeapBlock) (bytes alignment : ℕ) (r : HeapBlock × ℕ)
    → IsValid heap
    → 0 < bytes
    → allocate_in bytes alignment heap ≡ some r
    → Served (heap ∷ heaps) (r.0 ∷ heaps, r.1)
unfolding free_from
here heap heaps bytes alignment r v p q =
    let (k, a) = allocate_in-free_in heap r.0 bytes alignment r.1 v p q in
    let (old, new) = contains_pointer heap r.0 (chunks_for bytes heap) r.1 k a in
    (inl old, rw (free_from, new, a.frees) refl)

further :
    (heap : HeapBlock) (heaps : List HeapBlock) (r : List HeapBlock × ℕ)
    → Disjoint (heap ∷ heaps)
    → Served heaps r
    → Served (heap ∷ heaps) (heap ∷ r.0, r.1)
unfolding free_from Disjoint
further heap heaps r d (there, frees) = (inr there, rw (free_from, d.0 r.1 there, frees) refl)

allocate_from-free_from :
    (heaps heaps' : List HeapBlock) (bytes alignment ptr : ℕ)
    → All IsValid heaps
    → Disjoint heaps
    → 0 < bytes
    → allocate_from bytes alignment heaps ≡ ok (heaps', ptr)
    → Served heaps (heaps', ptr)
unfolding allocate_from free_from Disjoint
allocate_from-free_from [] heaps' bytes alignment ptr v d p e = absurd (ground (arith, e))
allocate_from-free_from (heap ∷ heaps) heaps' bytes alignment ptr v d p e =
    elim (Option-cases (allocate_in bytes alignment heap)) [
      | inr (r, q) ↦
          (let same : (r.0 ∷ heaps, r.1) ≡ (heaps', ptr) = ground (arith, q, e) in
            subst (Served (heap ∷ heaps)) same (here heap heaps bytes alignment r v.0 p q))
      | inl q ↦ elim (Result-cases (allocate_from bytes alignment heaps)) [
        | inl (r, q') ↦
            (let same : (heap ∷ r.0, r.1) ≡ (heaps', ptr) = ground (arith, q, q', e) in
              subst (Served (heap ∷ heaps)) same (
                further heap heaps r d
                  (allocate_from-free_from heaps r.0 bytes alignment r.1 v.1 d.1 p q')))
        | inr (f, q') ↦ absurd (ground (arith, q, q', e))
      ]
    ]

not_null :
    (heaps : List HeapBlock) (ptr : ℕ)
    → All (λ heap. 0 < heap.begin) heaps
    → Any (λ heap. block_contains heap ptr ≡ true) heaps
    → ptr ≢ 0
not_null [] ptr b i e = i
not_null (heap ∷ heaps) ptr b (inl i) e = ground (arith, b.0, i, e)
not_null (heap ∷ heaps) ptr b (inr i) e = not_null heaps ptr b.1 i e

-- When the heap, of disjoint blocks that do not begin at 0, serves a request, the pointer lies in one of
-- its blocks and is not null, and freeing it gives back the heap exactly as it was.
pub heap_allocate-heap_free :
    (heaps heaps' : List HeapBlock) (bytes alignment ptr : ℕ)
    → All IsValid heaps
    → All (λ heap. 0 < heap.begin) heaps
    → Disjoint heaps
    → heap_allocate bytes alignment heaps ≡ ok (heaps', ptr)
    → Any (λ heap. block_contains heap ptr ≡ true) heaps
      × (ptr ≢ 0)
      × (heap_free ptr heaps' ≡ ok heaps)
unfolding heap_allocate heap_free
heap_allocate-heap_free heaps heaps' bytes alignment ptr v b d e =
    let inner : allocate_from bytes alignment heaps ≡ ok (heaps', ptr) = ground (arith, e) in
    let (inside, frees) =
      allocate_from-free_from heaps heaps' bytes alignment ptr v d (ground (arith, e)) inner in
    let ne = not_null heaps ptr b inside in
    let some_pointer : (ptr == 0) ≡ false = ground arith in
    (inside, ne, rw (heap_free, some_pointer) frees)
