-- ===== src/Memory/Heap/RoundTrip.antt =====
-- Allocating from a block of the heap, and freeing what was allocated.
use ultra_os.Common.{
  ℕ, ◌+◌, ◌-◌, ◌*◌, ◌/◌, ◌≤◌, ◌<◌, ◌≡◌, ◌≢◌, refl, sym, ap, subst, ◌∙◌, ◌⊎◌, inl, inr, false, ltb,
  ◌==◌, if◌then◌else◌, some, Option-cases, get_or, length, ok, Bool-cases, arith,
}
use native.Mathlib.Nat.{div-lt_iff_lt-mul, mul-div_cancel}
use ultra_os.Memory.Range.{max_of}
use ultra_os.Memory.Heap.{
  HeapBlock, id_at, find_chunks, mark, allocate_in, take_chunks, free_in, chunks_for, offset_for,
  free_bytes, unique_id,
}
use ultra_os.Memory.Heap.Runs.{
  IsFreeRun, get_or-mark_out, get_or-mark_in, clear_run-mark, find_chunks-IsFreeRun,
}

-- A bitmap has an identifier for each chunk and at least one to spare, since `allocate` and `free` also read
-- the one behind the last chunk.
pub record IsValid (heap : HeapBlock) : Type 0 where
  pub sized : 0 < heap.chunk_size
  pub covers : heap.chunk_count < length heap.ids

unique_id_lem :
    (left right : ℕ)
    → let id = unique_id left right in (id ≢ 0) × (id ≢ left) × (id ≢ right) × (id ≤ 3)
unique_id_lem left right = ground arith

-- What an allocation of `n` chunks at the chunk `k` does.
pub record Allocated (heap : HeapBlock) (n : ℕ) (heap' : HeapBlock) (ptr k : ℕ) : Type 0 where
  pub pointer : ptr ≡ heap.begin + k * heap.chunk_size
  pub inside : k + n ≤ heap.chunk_count
  pub was_free : IsFreeRun heap.ids k n
  pub taken : (j : ℕ) → j < n → get_or heap'.ids (k + j) 0 ≢ 0
  pub others : (l : ℕ) → (l < k) ⊎ (k + n ≤ l) → get_or heap'.ids l 0 ≡ get_or heap.ids l 0
  pub count : heap'.free_chunks + n ≡ heap.free_chunks
  pub place :
      (heap'.begin ≡ heap.begin)
      × (heap'.chunk_count ≡ heap.chunk_count)
      × (heap'.chunk_size ≡ heap.chunk_size)
  pub frees : free_in ptr heap' ≡ ok heap

enough :
    (bytes size free : ℕ)
    → 0 < size
    → 0 < bytes
    → bytes ≤ free * size
    → 1 + (bytes - 1) / size ≤ free
enough bytes size free p q h =
    let below : (bytes - 1) / size < free = (div-lt_iff_lt-mul p).1 (omega arith) in omega arith

chunk_of : (k size begin : ℕ) → 0 < size → (begin + k * size - begin) / size * 2 / 2 ≡ k
chunk_of k size begin p =
    let same : begin + k * size - begin ≡ k * size = omega arith in
    rw (same, mul-div_cancel k p) (omega arith)

chunk_after : (at n : ℕ) → (at + n * 2) / 2 ≡ at / 2 + n
chunk_after at n = omega arith

frees_marked :
    (heap : HeapBlock) (n k id : ℕ)
    → IsValid heap
    → 0 < n
    → n ≤ heap.free_chunks
    → k + n ≤ heap.chunk_count
    → IsFreeRun heap.ids k n
    → id ≢ 0
    → get_or heap.ids (k + n) 0 ≢ id
    → free_in
        (heap.begin + k * heap.chunk_size)
        (record heap { free_chunks = heap.free_chunks - n; ids = mark n k id heap.ids })
      ≡ ok heap
unfolding free_in
frees_marked heap n k id v p f h run nonzero follows =
    let chunk = chunk_of k heap.chunk_size heap.begin v.sized in
    let marked : get_or (mark n k id heap.ids) k 0 ≡ id =
      ap (λ x. get_or (mark n k id heap.ids) x 0) (omega arith)
      ∙ get_or-mark_in n k id heap.ids 0 (omega (arith, v.covers)) p in
    let busy : (id == 0) ≡ false = ground arith in
    let cleared =
      clear_run-mark (heap.chunk_count + 1) n k id heap.ids nonzero (omega arith)
        (omega (arith, v.covers)) run follows in
    let count : heap.free_chunks - n + n ≡ heap.free_chunks = omega arith in
    rw (free_in, chunk, marked, busy, cleared)
      (ap (λ c. ok (record heap { free_chunks = c })) count)

take_chunks-Allocated :
    (heap : HeapBlock) (n at : ℕ)
    → IsValid heap
    → 0 < n
    → n ≤ heap.free_chunks
    → at / 2 + n ≤ heap.chunk_count
    → IsFreeRun heap.ids (at / 2) n
    → let (heap', ptr) = take_chunks heap n at in Allocated heap n heap' ptr (at / 2)
unfolding take_chunks free_in
take_chunks-Allocated heap n at v p f h run =
    let k = at / 2 in
    let left = if at == 0 then 0 else id_at heap.ids (at - 2) in
    let right = if ltb k heap.chunk_count then id_at heap.ids (at + n * 2) else 0 in
    let id = unique_id left right in
    let (nonzero, ne_left, ne_right, small) = unique_id_lem left right in
    let next_id : get_or heap.ids (k + n) 0 ≡ right =
      ground (arith, ap (λ x. get_or heap.ids x 0) (chunk_after at n)) in
    let follows : get_or heap.ids (k + n) 0 ≢ id = λ q. ne_right (sym q ∙ next_id) in
    record {
      pointer = refl;
      inside = h;
      was_free = run;
      taken =
          λ j l e. nonzero (sym (get_or-mark_in n k id heap.ids j (omega (arith, v.covers)) l) ∙ e);
      others = λ l o. get_or-mark_out n k id heap.ids l o;
      count = omega arith;
      place = (refl, refl, refl);
      frees = frees_marked heap n k id v p f h run nonzero follows;
    }

-- When a block serves a request, the chunks that it gives were free and lie in the block, exactly they
-- become taken, and freeing the pointer gives back the block exactly as it was.
pub allocate_in-free_in :
    (heap heap' : HeapBlock) (bytes alignment ptr : ℕ)
    → IsValid heap
    → 0 < bytes
    → allocate_in bytes alignment heap ≡ some (heap', ptr)
    → (k : ℕ) × Allocated heap (chunks_for bytes heap) heap' ptr k
unfolding allocate_in
allocate_in-free_in heap heap' bytes alignment ptr v p e =
    let n = chunks_for bytes heap in
    let offset = offset_for alignment heap in
    let bits = max_of (alignment / heap.chunk_size * 2) 2 in
    elim (Bool-cases (ltb (free_bytes heap) bytes)) [
      | inl poor ↦ absurd (ground (arith, poor, e))
      | inr rich ↦
          elim (Option-cases (find_chunks (heap.chunk_count + 1) heap n bits offset offset 0 0)) [
            | inl none_found ↦ absurd (ground (arith, rich, none_found, e))
            | inr (at, found) ↦
                let (inside, run) =
                  find_chunks-IsFreeRun (heap.chunk_count + 1) heap n bits offset offset 0 0 at
                    (omega arith) (λ z. absurd (z refl)) found in
                let fits =
                  enough bytes heap.chunk_size heap.free_chunks v.sized p (ground (arith, rich)) in
                let result : take_chunks heap n at ≡ (heap', ptr) =
                  ground (arith, rich, found, e) in
                (
                  at / 2,
                  subst (λ r. Allocated heap n r.0 r.1 (at / 2)) result
                      (take_chunks-Allocated heap n at v (omega arith) fits inside run),
                )
          ]
    ]
