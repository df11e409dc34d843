-- ===== src/FileSystem/DiskCache/Flush.antt =====
-- `flush_all`: the disk has what the cache stands for afterwards.
use ultra_os.Common.{
  ℕ, ◌+◌, ◌*◌, ◌<◌, ◌≡◌, ◌≢◌, inl, inr, refl, sym, ap, subst, ◌∙◌, arith, ◌==◌, true, false,
  Bool-cases, Option, none, some, List, [], ◌∷◌, length-map, map, All, All-map₂, ok,
}
use ultra_os.FileSystem.DiskCache.{
  Bytes, CachedBlock, DiskCache, block_index_to_cached_index, offset_in_block, find_block, clean,
  flush_blocks, flush_all,
}
use ultra_os.FileSystem.DiskCache.View.{
  block_start, byte_or, view, IsEntry, Distinct, IsSized, IsValid,
}
use ultra_os.FileSystem.DiskCache.Slots.{cached_index_lem, in_slot, slots_apart}
use ultra_os.FileSystem.DiskCache.Cached.{Flushed, flush_block-Flushed, Flushed-IsEntry, SameView}
use ultra_os.FileSystem.DiskCache.Evict.{IsSized-blocks}
use ultra_os.FileSystem.DiskCache.Transfer.{caching_required}

-- The disk has what the given blocks hold in the places of their requests, and is as it was in those of others.
abbrev Held : DiskCache → List CachedBlock → Bytes → Type 0
Held s blocks disk =
    (index slot i : ℕ)
    → index ≡ slot * s.fs_blocks_per_io
    → i < s.io_size
    → disk (block_start s index + i)
      ≡ byte_or (find_block index blocks) i (s.disk (block_start s index + i))

none-All :
    (index : ℕ) (blocks : List CachedBlock)
    → All (λ c. c.first_block ≢ index) blocks
    → find_block index blocks ≡ none
unfolding find_block
none-All index [] apart = refl
none-All index (c ∷ blocks) apart =
    let other = apart.0 in ground (arith, other, none-All index blocks apart.1)

Flushed-Held :
    (s : DiskCache) (b : CachedBlock) (disk disk' : Bytes) (blocks : List CachedBlock)
    → IsSized s
    → IsEntry s b
    → Flushed s b disk
    → All (λ c. c.first_block ≢ b.first_block) blocks
    → Held (record s { disk = disk }) blocks disk'
    → Held s (b ∷ blocks) disk'
unfolding find_block
Flushed-Held s b disk disk' blocks z e f apart held index slot i aligned h =
    let place = block_start s index + i in
    elim (Bool-cases (b.first_block == index)) [
      | inl same ↦
          (let first : b.first_block ≡ index = ground (arith, same) in
            let gone : find_block index blocks ≡ none =
              none-All index blocks
                (subst (λ x. All (λ c. c.first_block ≢ x) blocks) first apart) in
            rw same (
              held index slot i aligned h
              ∙ ap (λ o. byte_or o i (disk place)) gone
              ∙ ap (λ (x : ℕ). disk (block_start s x + i)) (sym first)
              ∙ f.stored i h))
      | inr differs ↦
          (let ne : index ≢ b.first_block = λ q. absurd (ground (arith, differs, q)) in
            rw differs (
              held index slot i aligned h
              ∙ ap (byte_or (find_block index blocks) i) (
                  f.elsewhere place (λ i' h'.
                    slots_apart s index b.first_block slot e.slot i i' z aligned e.aligned ne h
                      h'))))
    ]

flush_blocks-Held :
    (blocks : List CachedBlock) (s : DiskCache)
    → IsSized s
    → All (IsEntry s) blocks
    → Distinct blocks
    → (disk : Bytes) × (flush_blocks blocks s ≡ ok (map clean blocks, record s { disk = disk }))
      × Held s blocks disk
unfolding flush_blocks find_block
flush_blocks-Held [] s z entries d = (s.disk, refl, λ index slot i aligned h. refl)
flush_blocks-Held (b ∷ blocks) s z entries d =
    let (disk, flushed, f) = flush_block-Flushed b s z entries.0 in
    let later =
      All-map₂ blocks (λ c e ne. Flushed-IsEntry s b c disk z entries.0 f ne e) entries.1 d.0 in
    let (disk', rest, held) =
      flush_blocks-Held blocks (record s { disk = disk })
        (IsSized-blocks s disk s.cached_blocks s.offset_within_region z) later d.1 in
    (
      disk',
      rw (flush_blocks, flushed, rest) refl,
      Flushed-Held s b disk disk' blocks z entries.0 f d.0 held,
    )

find_block-clean :
    (index i byte : ℕ) (blocks : List CachedBlock)
    → byte_or (find_block index (map clean blocks)) i byte
      ≡ byte_or (find_block index blocks) i byte
unfolding find_block
find_block-clean index i byte [] = refl
find_block-clean index i byte (b ∷ blocks) = elim (Bool-cases (b.first_block == index)) [
  | inl same ↦ rw same refl
  | inr differs ↦ rw differs (find_block-clean index i byte blocks)
]

All-clean :
    (P Q : CachedBlock → Type 0) (blocks : List CachedBlock)
    → ((b : CachedBlock) → P b → Q (clean b))
    → All P blocks
    → All Q (map clean blocks)
All-clean P Q [] f h = tt
All-clean P Q (b ∷ blocks) f h = (f b h.0, All-clean P Q blocks f h.1)

Distinct-clean : (blocks : List CachedBlock) → Distinct blocks → Distinct (map clean blocks)
Distinct-clean [] d = tt
Distinct-clean (b ∷ blocks) d = (All-clean _ _ blocks (λ c ne. ne) d.0, Distinct-clean blocks d.1)

-- What each block holds is found.
All-found :
    (blocks : List CachedBlock)
    → Distinct blocks
    → All (λ b. find_block b.first_block blocks ≡ some b) blocks
unfolding find_block
All-found [] d = tt
All-found (b ∷ blocks) d =
    let here : (b.first_block == b.first_block) ≡ true = ground arith in
    (
      rw here refl,
      All-map₂ blocks
          (λ c ne found.
            let differs : (b.first_block == c.first_block) ≡ false = ground (arith, ne) in
            rw differs found)
          d.0 (All-found blocks d.1),
    )

byte_or_twice :
    (o : Option CachedBlock) (i byte : ℕ) → byte_or o i (byte_or o i byte) ≡ byte_or o i byte
byte_or_twice none i byte = refl
byte_or_twice (some b) i byte = refl

-- `flush_all` of a valid cache succeeds. The disk has at the place of every block of the file system what the cache
-- stood for; the cache is valid, with no dirty block, and stands for the same.
pub flush_all_lem :
    (s : DiskCache)
    → IsValid s
    → (s' : DiskCache) × (flush_all s ≡ ok s')
      × IsValid s'
      × All (λ b. b.is_dirty ≡ false) s'.cached_blocks
      × SameView s s'
      × ((block offset : ℕ)
          → offset < s.fs_block_size
          → s'.disk (block_start s block + offset) ≡ view s block offset)
unfolding flush_all
flush_all_lem s v =
    let (disk, flushed, held) = flush_blocks-Held s.cached_blocks s v.sized v.entries v.distinct in
    let blocks = map clean s.cached_blocks in
    let s' = record s { disk = disk; cached_blocks = blocks } in
    let stored : (block offset : ℕ)
        → offset < s.fs_block_size
        → disk (block_start s block + offset) ≡ view s block offset =
      λ block offset h.
        (let at = offset_in_block block s + offset in
          let index = block_index_to_cached_index block s in
          let (small, place) = in_slot s block offset v.sized h in
          let (slot, aligned, low, high) = cached_index_lem s block v.sized in
          ap disk (sym place)
          ∙ held index slot at aligned small
          ∙ ap (λ (x : ℕ). byte_or (find_block index s.cached_blocks) at (s.disk x)) place) in
    (
      s',
      rw (flush_all, caching_required s v.sized, flushed) refl,
      record {
        sized = IsSized-blocks s disk blocks s.offset_within_region v.sized;
        within = omega (arith, length-map s.cached_blocks clean, v.within);
        entries =
            All-clean (λ b. IsEntry s b × (find_block b.first_block s.cached_blocks ≡ some b))
              (IsEntry s') s.cached_blocks
              (λ b e. record {
                slot = e.0.slot;
                aligned = e.0.aligned;
                inside = e.0.inside;
                agrees = λ unused i k. sym (
                    held b.first_block e.0.slot i e.0.aligned k
                    ∙ ap (λ o. byte_or o i (s.disk (block_start s b.first_block + i))) e.1);
              })
              (All-map₂ s.cached_blocks (λ b e found. (e, found)) v.entries
                (All-found s.cached_blocks v.distinct));
        distinct = Distinct-clean s.cached_blocks v.distinct;
      },
      All-clean (IsEntry s) _ s.cached_blocks (λ b e. refl) v.entries,
      λ block offset h.
          (let index = block_index_to_cached_index block s in
            let at = offset_in_block block s + offset in
            let cached = find_block index s.cached_blocks in
            find_block-clean index at (disk (block_start s block + offset)) s.cached_blocks
            ∙ ap (byte_or cached at) (stored block offset h)
            ∙ byte_or_twice cached at (s.disk (block_start s block + offset))),
      stored,
    )
