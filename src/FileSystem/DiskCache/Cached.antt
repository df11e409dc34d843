-- ===== src/FileSystem/DiskCache/Cached.antt =====
-- Flushing a block, evicting the least recently used one, and bringing a block to the front: none of these
-- changes what the cache stands for.
use ultra_os.Common.{
  ℕ, ◌+◌, ◌-◌, ◌*◌, ◌<◌, ◌≡◌, ◌≢◌, inl, inr, refl, sym, ap, ◌∙◌, arith, ◌==◌, if◌then◌else◌,
  Bool-cases, Option, none, some, List, [], ◌∷◌, ◌++◌, ok,
}
use ultra_os.FileSystem.DiskCache.{
  Bytes, CachedBlock, DiskCache, block_to_lba_range, find_block, pop_back, write_at, flush_block,
}
use ultra_os.FileSystem.DiskCache.View.{block_start, view, IsEntry, IsSized}
use ultra_os.FileSystem.DiskCache.Slots.{lba_range_lem, slots_apart}

-- What flushing a block does to the disk.
pub record Flushed (s : DiskCache) (b : CachedBlock) (disk : Bytes) : Type 0 where
  pub stored : (i : ℕ) → i < s.io_size → disk (block_start s b.first_block + i) ≡ b.bytes i
  pub elsewhere :
      (a : ℕ) → ((i : ℕ) → i < s.io_size → a ≢ block_start s b.first_block + i) → disk a ≡ s.disk a

pub write_at_inside :
    (disk : Bytes) (begin count : ℕ) (bytes : Bytes) (i : ℕ)
    → i < count
    → write_at disk begin count bytes (begin + i) ≡ bytes i
write_at_inside disk begin count bytes i h =
    let at : begin + i - begin ≡ i = omega arith in ground (arith, h, ap bytes at)

pub write_at_outside :
    (disk : Bytes) (begin count : ℕ) (bytes : Bytes) (a : ℕ)
    → ((i : ℕ) → i < count → a ≢ begin + i)
    → write_at disk begin count bytes a ≡ disk a
write_at_outside disk begin count bytes a h = ground (arith, h (a - begin))

pub flush_block-Flushed :
    (b : CachedBlock) (s : DiskCache)
    → IsSized s
    → IsEntry s b
    → (disk : Bytes) × (flush_block b s ≡ ok (record s { disk = disk })) × Flushed s b disk
unfolding flush_block
flush_block-Flushed b s z e =
    let (at, size) = lba_range_lem s b.first_block e.slot z e.aligned in
    let lbas = block_to_lba_range b.first_block s in
    elim (Bool-cases b.is_dirty) [
      | inr clean ↦ (
        s.disk,
        rw (flush_block, clean) refl,
        record { stored = λ i h. sym (e.agrees clean i h); elsewhere = λ a h. refl },
      )
      | inl dirty ↦ (
        write_at s.disk (lbas.begin * s.logical_block_size)
            ((lbas.end - lbas.begin) * s.logical_block_size) b.bytes,
        rw (flush_block, dirty, e.inside) refl,
        record {
          stored = λ i h. rw (← at) (
              write_at_inside s.disk (lbas.begin * s.logical_block_size)
                ((lbas.end - lbas.begin) * s.logical_block_size) b.bytes i
                (omega (arith, size, h)));
          elsewhere = λ a h.
              write_at_outside s.disk (lbas.begin * s.logical_block_size)
                ((lbas.end - lbas.begin) * s.logical_block_size) b.bytes a
                (λ i p q. h i (omega (arith, size, p)) (omega (arith, at, q)));
        },
      )
    ]

-- An entry stays one when another block is flushed.
pub Flushed-IsEntry :
    (s : DiskCache) (b c : CachedBlock) (disk : Bytes)
    → IsSized s
    → IsEntry s b
    → Flushed s b disk
    → c.first_block ≢ b.first_block
    → IsEntry s c
    → IsEntry (record s { disk = disk }) c
Flushed-IsEntry s b c disk z e f ne ec = record {
  slot = ec.slot;
  aligned = ec.aligned;
  inside = ec.inside;
  agrees = λ clean i h.
      ec.agrees clean i h
      ∙ sym (
          f.elsewhere (block_start s c.first_block + i) (λ i' h'.
            slots_apart s c.first_block b.first_block ec.slot e.slot i i' z ec.aligned e.aligned ne
              h h'));
}

pub pop_back_lem :
    (blocks : List CachedBlock)
    → blocks ≢ []
    → (rest : List CachedBlock) × (b : CachedBlock) × (pop_back blocks ≡ some (rest, b))
      × (blocks ≡ rest ++ b ∷ [])
unfolding pop_back
pop_back_lem [] ne = absurd (ne refl)
pop_back_lem (b ∷ []) ne = ([], b, refl, refl)
pop_back_lem (b ∷ c ∷ blocks) ne =
    let (rest, last, e, same) = pop_back_lem (c ∷ blocks) (λ q. absurd (ground (arith, q))) in
    (b ∷ rest, last, rw (pop_back, e) refl, ap (λ x. b ∷ x) same)

pub find_block-append :
    (index : ℕ) (rest : List CachedBlock) (b : CachedBlock)
    → find_block index (rest ++ b ∷ [])
      ≡ elim (find_block index rest) as (λ o. Option CachedBlock) [
        | some c ↦ some c
        | none ↦ if b.first_block == index then some b else none
      ]
unfolding find_block
find_block-append index [] b = refl
find_block-append index (c ∷ rest) b = ground (arith, find_block-append index rest b)

pub find_block-some :
    (index : ℕ) (blocks : List CachedBlock) (b : CachedBlock)
    → find_block index blocks ≡ some b
    → b.first_block ≡ index
unfolding find_block
find_block-some index [] b e = absurd (ground (arith, e))
find_block-some index (c ∷ blocks) b e = ground (arith, e, find_block-some index blocks b)

-- The state with another disk and other blocks stands for the same bytes.
abbrev pub SameView : DiskCache → DiskCache → Type 0
SameView s s' =
    (block offset : ℕ) → offset < s.fs_block_size → view s' block offset ≡ view s block offset
