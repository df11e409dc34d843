-- ===== src/FileSystem/DiskCache/Evict.antt =====
-- `evict_one`: what the cache stands for stays, and there is room for a block.
use ultra_os.Common.{
  ℕ, ◌+◌, ◌<◌, ◌≡◌, ◌≢◌, inl, inr, refl, sym, ap, subst, ◌∙◌, arith, ◌==◌, if◌then◌else◌, Bool,
  true, false, Bool-cases, Option-cases, none, some, List, [], ◌∷◌, ◌++◌, length, All, All-map₂,
  length-append, All-of-append, ok,
}
use ultra_os.FileSystem.DiskCache.{
  Bytes, CachedBlock, DiskCache, block_index_to_cached_index, offset_in_block, find_block,
  evict_one,
}
use ultra_os.FileSystem.DiskCache.View.{block_start, byte_or, IsEntry, Distinct, IsSized, IsValid}
use ultra_os.FileSystem.DiskCache.Slots.{cached_index_lem, in_slot, slots_apart}
use ultra_os.FileSystem.DiskCache.Cached.{
  Flushed, flush_block-Flushed, Flushed-IsEntry, pop_back_lem, find_block-append, SameView,
}

-- Entries and sizes do not depend on the list of blocks or on how much of the region is in use.
pub IsEntry-blocks :
    (s : DiskCache) (blocks : List CachedBlock) (offset : ℕ) (c : CachedBlock)
    → IsEntry s c
    → IsEntry (record s { cached_blocks = blocks; offset_within_region = offset }) c
IsEntry-blocks s blocks offset c e = record {
  slot = e.slot;
  aligned = e.aligned;
  inside = e.inside;
  agrees = e.agrees;
}

pub IsSized-blocks :
    (s : DiskCache) (disk : Bytes) (blocks : List CachedBlock) (offset : ℕ)
    → IsSized s
    → IsSized (record s { disk = disk; cached_blocks = blocks; offset_within_region = offset })
IsSized-blocks s disk blocks offset z = record {
  block_pos = z.block_pos;
  blocks_pos = z.blocks_pos;
  io = z.io;
  part = z.part;
  blocks_part = z.blocks_part;
  pages = z.pages;
  page_multiple = z.page_multiple;
  logical = z.logical;
  capacity_pos = z.capacity_pos;
}

Distinct-append :
    (rest : List CachedBlock) (b : CachedBlock)
    → Distinct (rest ++ b ∷ [])
    → Distinct rest × All (λ c. c.first_block ≢ b.first_block) rest
Distinct-append [] b d = (tt, tt)
Distinct-append (c ∷ rest) b (apart, d) =
    let (others, (last, end)) =
      All-of-append (λ x. x.first_block ≢ c.first_block) rest (b ∷ []) apart in
    let (distinct, from_b) = Distinct-append rest b d in
    ((others, distinct), (λ q. last (sym q), from_b))

-- The byte of a block on the disk after another or the same cached block is flushed.
pub Flushed-byte :
    (s : DiskCache) (b : CachedBlock) (disk : Bytes) (block offset : ℕ)
    → IsSized s
    → IsEntry s b
    → Flushed s b disk
    → offset < s.fs_block_size
    → disk (block_start s block + offset) ≡ (
        if b.first_block == block_index_to_cached_index block s
        then b.bytes (offset_in_block block s + offset)
        else s.disk (block_start s block + offset))
Flushed-byte s b disk block offset z e f h =
    let index = block_index_to_cached_index block s in
    let (small, at) = in_slot s block offset z h in
    let (slot, aligned, low, high) = cached_index_lem s block z in
    elim (Bool-cases (b.first_block == index)) [
      | inl same ↦
          (let first : b.first_block ≡ index = ground (arith, same) in
            rw same (
              sym (ap disk at)
              ∙ ap (λ (x : ℕ). disk (block_start s x + (offset_in_block block s + offset)))
                  (sym first)
              ∙ f.stored (offset_in_block block s + offset) small))
      | inr other ↦
          (let ne : index ≢ b.first_block = λ q. absurd (ground (arith, other, q)) in
            rw (other, ← at)
              (f.elsewhere (block_start s index + (offset_in_block block s + offset)) (λ i k.
                slots_apart s index b.first_block slot e.slot (offset_in_block block s + offset) i z
                  aligned e.aligned ne small k)))
    ]

pick :
    (same : Bool) (b : CachedBlock) (i byte : ℕ)
    → byte_or (if same then some b else none) i byte ≡ (if same then b.bytes i else byte)
pick true b i byte = refl
pick false b i byte = refl

-- A state without the block that was written to the disk stands for the same.
evicted-SameView :
    (s : DiskCache) (rest : List CachedBlock) (b : CachedBlock) (disk : Bytes)
    → IsSized s
    → IsEntry s b
    → Flushed s b disk
    → s.cached_blocks ≡ rest ++ b ∷ []
    → SameView s (record s { disk = disk; cached_blocks = rest })
evicted-SameView s rest b disk z e f parts block offset h =
    let index = block_index_to_cached_index block s in
    let at = offset_in_block block s + offset in
    let byte = s.disk (block_start s block + offset) in
    let old : find_block index s.cached_blocks ≡ _ =
      ap (find_block index) parts ∙ find_block-append index rest b in
    let viewed = ap (λ o. byte_or o at byte) old in
    elim (Option-cases (find_block index rest)) [
      | inr (c, found) ↦ rw found (sym (viewed ∙ rw found refl))
      | inl missing ↦ rw missing (
          Flushed-byte s b disk block offset z e f h
          ∙ sym (viewed ∙ rw missing (pick (b.first_block == index) b at byte)))
    ]

none-front :
    (index : ℕ) (rest : List CachedBlock) (b : CachedBlock)
    → find_block index (rest ++ b ∷ []) ≡ none
    → find_block index rest ≡ none
none-front index rest b missing = elim (Option-cases (find_block index rest)) [
  | inl e ↦ e
  | inr (c, found) ↦
      (let shown : find_block index (rest ++ b ∷ []) ≡ some c =
          find_block-append index rest b ∙ rw found refl in
        absurd (ground (arith, sym missing ∙ shown)))
]

-- Evicting from a valid cache that has a block succeeds. The cache is valid again, stands for the same, and has
-- room; the blocks that are left are of the same lookups, but for the evicted block.
pub evict_one_lem :
    (s : DiskCache)
    → IsValid s
    → s.cached_blocks ≢ []
    → (disk : Bytes) × (rest : List CachedBlock) × (evict_one s
        ≡ ok (record s { disk = disk; cached_blocks = rest }))
      × IsValid (record s { disk = disk; cached_blocks = rest })
      × SameView s (record s { disk = disk; cached_blocks = rest })
      × (length rest < s.capacity)
      × ((index : ℕ) → find_block index s.cached_blocks ≡ none → find_block index rest ≡ none)
unfolding evict_one
evict_one_lem s v nonempty =
    let (rest, b, popped, parts) = pop_back_lem s.cached_blocks nonempty in
    let (entries, (e, end)) =
      All-of-append (IsEntry s) rest (b ∷ []) (subst (All (IsEntry s)) parts v.entries) in
    let (distinct, from_b) = Distinct-append rest b (subst Distinct parts v.distinct) in
    let (disk, flushed, f) = flush_block-Flushed b s v.sized e in
    let room : length rest < s.capacity =
      omega (arith, v.within, ap length parts, length-append rest (b ∷ [])) in
    (
      disk,
      rest,
      rw (evict_one, popped, flushed) refl,
      record {
        sized = IsSized-blocks s disk rest s.offset_within_region v.sized;
        within = omega (arith, room);
        entries =
            All-map₂ rest
              (λ c ec ne.
                IsEntry-blocks (record s { disk = disk }) rest s.offset_within_region c
                  (Flushed-IsEntry s b c disk v.sized e f ne ec))
              entries from_b;
        distinct = distinct;
      },
      evicted-SameView s rest b disk v.sized e f parts,
      room,
      λ index missing. none-front index rest b (sym (ap (find_block index) parts) ∙ missing),
    )
