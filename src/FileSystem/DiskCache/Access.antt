-- ===== src/FileSystem/DiskCache/Access.antt =====
-- `cached_block`: the block of the file system is in the block at the front, and the cache stands for what
-- it stood for.
use ultra_os.Common.{
  ℕ, ◌+◌, ◌*◌, ◌<◌, ◌≡◌, inl, inr, refl, sym, ap, subst, ◌∙◌, arith, ◌==◌, true, false, Bool-cases,
  Option-cases, none, some, List, ◌∷◌, length, All-map, ok,
}
use ultra_os.Memory.Range.{contains}
use ultra_os.FileSystem.DiskCache.{
  Bytes, CachedBlock, DiskCache, block_to_lba_range, block_index_to_cached_index, offset_in_block,
  find_block, pop_off, cached_block, read_lbas,
}
use ultra_os.FileSystem.DiskCache.View.{block_start, byte_or, view, IsEntry, IsValid}
use ultra_os.FileSystem.DiskCache.Slots.{lba_range_lem, cached_index_lem, in_slot}
use ultra_os.FileSystem.DiskCache.Cached.{find_block-some, SameView}
use ultra_os.FileSystem.DiskCache.Lookup.{
  find_block-All, pop_off-Distinct, length-pop_off, find_block-none, find_block-front,
}
use ultra_os.FileSystem.DiskCache.Evict.{IsEntry-blocks, IsSized-blocks, evict_one_lem}

-- The state with `b` at the front.
abbrev pub brought : DiskCache → CachedBlock → List CachedBlock → Bytes → ℕ → DiskCache
brought s b rest disk offset = record s {
  offset_within_region = offset;
  cached_blocks = b ∷ rest;
  disk = disk;
}

-- The block that is read in.
abbrev fetched : DiskCache → ℕ → CachedBlock
fetched s index = record {
  first_block = index;
  is_dirty = false;
  bytes = read_lbas (block_to_lba_range index s) s;
}

pub front-view :
    (s : DiskCache) (b : CachedBlock) (rest : List CachedBlock) (disk : Bytes) (offset block i : ℕ)
    → b.first_block ≡ block_index_to_cached_index block s
    → view (brought s b rest disk offset) block i ≡ b.bytes (offset_in_block block s + i)
unfolding find_block
front-view s b rest disk offset block i first =
    let here : (b.first_block == block_index_to_cached_index block s) ≡ true =
      ground (arith, first) in
    rw here refl

hit_lem :
    (s : DiskCache) (index : ℕ) (b : CachedBlock)
    → IsValid s
    → find_block index s.cached_blocks ≡ some b
    → let s' = record s { cached_blocks = b ∷ pop_off index s.cached_blocks } in
      IsValid s' × SameView s s'
hit_lem s index b v found =
    let rest = pop_off index s.cached_blocks in
    let (apart, distinct) = pop_off-Distinct index s.cached_blocks b found v.distinct in
    let first = find_block-some index s.cached_blocks b found in
    (
      record {
        sized = IsSized-blocks s s.disk (b ∷ rest) s.offset_within_region v.sized;
        within = omega (arith, length-pop_off index s.cached_blocks b found, v.within);
        entries =
            find_block-All (IsEntry (record s { cached_blocks = b ∷ rest })) index s.cached_blocks b
              found
              (All-map s.cached_blocks (IsEntry-blocks s (b ∷ rest) s.offset_within_region)
                v.entries);
        distinct = (All-map rest (λ c ne q. ne (q ∙ first)) apart, distinct);
      },
      λ block offset h.
          ap
            (λ o.
              byte_or o (offset_in_block block s + offset) (s.disk (block_start s block + offset)))
            (find_block-front index (block_index_to_cached_index block s) s.cached_blocks b found),
    )

-- Reading in a block that is not cached, where there is room.
fetched_lem :
    (s : DiskCache) (index slot offset : ℕ)
    → IsValid s
    → index ≡ slot * s.fs_blocks_per_io
    → contains s.fs_lba_range (block_to_lba_range index s) ≡ true
    → find_block index s.cached_blocks ≡ none
    → length s.cached_blocks < s.capacity
    → let s' = brought s (fetched s index) s.cached_blocks s.disk offset in
      IsValid s' × SameView s s'
unfolding find_block
fetched_lem s index slot offset v aligned inside missing room =
    let b = fetched s index in
    let (at, size) = lba_range_lem s index slot v.sized aligned in
    let read_in : (i : ℕ) → b.bytes i ≡ s.disk (block_start s index + i) =
      λ i. ap (λ (x : ℕ). s.disk (x + i)) at in
    (
      record {
        sized = IsSized-blocks s s.disk (b ∷ s.cached_blocks) offset v.sized;
        within = room;
        entries = (
          record {
            slot = slot;
            aligned = aligned;
            inside = inside;
            agrees = λ clean i h. read_in i;
          },
          All-map s.cached_blocks (IsEntry-blocks s (b ∷ s.cached_blocks) offset) v.entries,
        );
        distinct = (find_block-none index s.cached_blocks missing, v.distinct);
      },
      λ block i h.
          (let other = block_index_to_cached_index block s in
            elim (Bool-cases (index == other)) [
              | inl same ↦
                  (let e : index ≡ other = ground (arith, same) in
                    let none_there : find_block other s.cached_blocks ≡ none =
                      subst (λ x. find_block x s.cached_blocks ≡ none) e missing in
                    let within = offset_in_block block s + i in
                    front-view s b s.cached_blocks s.disk offset block i e
                    ∙ read_in within
                    ∙ ap (λ (x : ℕ). s.disk (block_start s x + within)) e
                    ∙ ap s.disk (in_slot s block i v.sized h).1
                    ∙ sym
                        (ap (λ o. byte_or o within (s.disk (block_start s block + i))) none_there))
              | inr differs ↦ rw differs refl
            ]),
    )

-- In a valid cache, bringing a block to the front succeeds if its logical blocks are in the file system. The
-- block at the front is then that of the block's index, the cache is valid, and it stands for the same.
pub cached_block_lem :
    (s : DiskCache) (block : ℕ)
    → IsValid s
    → let index = block_index_to_cached_index block s in
      contains s.fs_lba_range (block_to_lba_range index s) ≡ true
      → (b : CachedBlock) × (rest : List CachedBlock) × (disk : Bytes) × (offset : ℕ)
        × (cached_block block s ≡ ok (b, brought s b rest disk offset))
        × (b.first_block ≡ index)
        × IsValid (brought s b rest disk offset)
        × SameView s (brought s b rest disk offset)
unfolding cached_block
cached_block_lem s block v inside =
    let index = block_index_to_cached_index block s in
    let (slot, aligned, low, high) = cached_index_lem s block v.sized in
    elim (Option-cases (find_block index s.cached_blocks)) [
      | inr (b, found) ↦
          (let (valid, same) = hit_lem s index b v found in
            (
              b,
              pop_off index s.cached_blocks,
              s.disk,
              s.offset_within_region,
              rw (cached_block, found) refl,
              find_block-some index s.cached_blocks b found,
              valid,
              same,
            ))
      | inl missing ↦ elim (Bool-cases (length s.cached_blocks == s.capacity)) [
        | inr space ↦
            (let offset = s.offset_within_region + s.io_size in
              let (valid, same) =
                fetched_lem s index slot offset v aligned inside missing
                  (ground (arith, space, v.within)) in
              (
                fetched s index,
                s.cached_blocks,
                s.disk,
                offset,
                rw (cached_block, missing, space, inside) refl,
                refl,
                valid,
                same,
              ))
        | inl full ↦
            (let count : length s.cached_blocks ≡ s.capacity = ground (arith, full) in
              let (disk, rest, evicted, valid, same, room, gone) =
                evict_one_lem s v (λ e. omega (arith, v.sized.capacity_pos, ap length e, count)) in
              let s' = record s { disk = disk; cached_blocks = rest } in
              let (valid', same') =
                fetched_lem s' index slot s.offset_within_region valid aligned inside
                  (gone index missing) room in
              (
                fetched s' index,
                rest,
                disk,
                s.offset_within_region,
                rw (cached_block, missing, full, evicted, inside) refl,
                refl,
                valid',
                λ b o h. same' b o h ∙ same b o h,
              ))
      ]
    ]
