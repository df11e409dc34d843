-- ===== src/Memory/Heap/Available.antt =====
-- The search of the heap finds a run of free chunks when there is one.
use ultra_os.Common.{
  ℕ, inl, inr, zero, suc, ◌+◌, ◌-◌, ◌*◌, ◌/◌, ◌≤◌, ◌<◌, ◌≡◌, ◌≢◌, refl, ap, ◌∙◌, true, false, ltb,
  ◌==◌, if◌then◌else◌, List, some, get_or, Bool-cases, arith,
}
use native.Mathlib.Nat.{div-lt_iff_lt-mul}
use native.Mathlib.Decide.{dec_lt}
use ultra_os.Memory.Range.{max_of}
use ultra_os.Memory.Heap.{
  HeapBlock, find_chunks, allocate_in, take_chunks, chunks_for, offset_for, free_bytes,
}
use ultra_os.Memory.Heap.Runs.{IsFreeRun}
use ultra_os.Memory.Heap.RoundTrip.{IsValid}

run_ahead :
    (ids : List ℕ) (n k c count : ℕ)
    → count < n
    → IsFreeRun ids k n
    → c ≤ k + count
    → get_or ids c 0 ≢ 0
    → c + 1 ≤ k
run_ahead ids n k c count l run ahead busy = elim (dec_lt c k) [
  | yes p ↦ omega arith
  | no p ↦ absurd (busy (ap (λ x. get_or ids x 0) (omega arith) ∙ run (c - k) (omega arith)))
]

find_chunks-run :
    (fuel : ℕ) (heap : HeapBlock) (n offset c count at_bit k : ℕ)
    → count < n
    → heap.chunk_count < fuel + c
    → k + n ≤ heap.chunk_count
    → IsFreeRun heap.ids k n
    → c ≤ k + count
    → (found : ℕ) × (find_chunks fuel heap n 2 offset (c * 2) count at_bit ≡ some found)
unfolding find_chunks
find_chunks-run zero heap n offset c count at_bit k l f inside run ahead = absurd (omega arith)
find_chunks-run (suc fuel) heap n offset c count at_bit k l f inside run ahead =
    let within : ltb (c * 2) (heap.chunk_count * 2) ≡ true = ground arith in
    let index : c * 2 / 2 ≡ c = omega arith in
    let next : c * 2 + 2 ≡ (c + 1) * 2 = omega arith in
    elim (Bool-cases (get_or heap.ids c 0 == 0)) [
      | inl free ↦ elim (Bool-cases (count + 1 == n)) [
        | inl enough ↦ (
          if count + 1 == 1 then c * 2 else at_bit,
          rw (find_chunks, within, index, free, enough) refl,
        )
        | inr more ↦
            rw (find_chunks, within, index, free, more, next)
              (find_chunks-run fuel heap n offset (c + 1) (count + 1)
                (if count + 1 == 1 then c * 2 else at_bit) k (ground (arith, more)) (omega arith)
                inside run (omega arith))
      ]
      | inr busy ↦
          (let onward = run_ahead heap.ids n k c count l run ahead (ground (arith, busy)) in
            rw (find_chunks, within, index, busy, next)
              (find_chunks-run fuel heap n offset (c + 1) 0 0 k (omega arith) (omega arith) inside
                run (omega arith)))
    ]

-- A block with enough free bytes serves a request whose alignment is at most the size of a chunk when
-- somewhere in it enough chunks in a row are free.
pub allocate_in-available :
    (heap : HeapBlock) (bytes alignment k : ℕ)
    → IsValid heap
    → 0 < bytes
    → bytes ≤ free_bytes heap
    → alignment ≤ heap.chunk_size
    → k + chunks_for bytes heap ≤ heap.chunk_count
    → IsFreeRun heap.ids k (chunks_for bytes heap)
    → (r : HeapBlock × ℕ) × (allocate_in bytes alignment heap ≡ some r)
unfolding allocate_in
allocate_in-available heap bytes alignment k v p enough small inside run =
    let rich : ltb (free_bytes heap) bytes ≡ false = ground arith in
    let below : alignment / heap.chunk_size < 2 =
      (div-lt_iff_lt-mul v.sized).1 (omega (arith, v.sized)) in
    let bits : max_of (alignment / heap.chunk_size * 2) 2 ≡ 2 = ground (arith, below) in
    let offset : offset_for alignment heap ≡ 0 = ground arith in
    let (found, e) =
      find_chunks-run (heap.chunk_count + 1) heap (chunks_for bytes heap) 0 0 0 0 k (omega arith)
        (omega arith) inside run (omega arith) in
    (take_chunks heap (chunks_for bytes heap) found, rw (allocate_in, rich, bits, offset, e) refl)
