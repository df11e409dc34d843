-- ===== src/FileSystem/DiskCache/Transfer.antt =====
-- `read_one`, `write_one` and `zero_fill_one`, on what the cache stands for.
use ultra_os.Common.{
  ℕ, ◌+◌, ◌-◌, ◌*◌, ◌≤◌, ◌<◌, ◌≡◌, refl, sym, ap, subst, ◌∙◌, arith, leb, ltb, ◌==◌, if◌then◌else◌,
  ◌&&◌, Bool, true, false, List, ◌∷◌, length, get_or, tabulate, tabulate_ext, All-map, Result,
  Fault, ok, err,
}
use native.Mathlib.Nat.{mul-le-mul_right}
use native.Mathlib.Decide.{ℕ_discrete}
use ultra_os.Memory.Range.{contains, min_of}
use ultra_os.FileSystem.Errors.{ErrorCode, memory_access_violation}
use ultra_os.FileSystem.DiskCache.{
  Bytes, CachedBlock, DiskCache, no_caching_required, block_to_lba_range,
  block_index_to_cached_index, offset_in_block, find_block, write_at, read_one, write_one,
  zero_fill_one,
}
use ultra_os.FileSystem.DiskCache.View.{view, IsSized, IsValid}
use ultra_os.FileSystem.DiskCache.Slots.{cached_index_lem, products_apart}
use ultra_os.FileSystem.DiskCache.Cached.{SameView, write_at_outside}
use ultra_os.FileSystem.DiskCache.Evict.{IsEntry-blocks, IsSized-blocks}
use ultra_os.FileSystem.DiskCache.Access.{brought, front-view, cached_block_lem}

pub caching_required : (s : DiskCache) → IsSized s → (s.io_size == no_caching_required) ≡ false
caching_required s z =
    let more : 1 * s.fs_block_size ≤ s.fs_blocks_per_io * s.fs_block_size =
      mul-le-mul_right s.fs_block_size z.blocks_pos in
    let pos = z.block_pos in let io = z.io in ground (arith, more, pos, io)

-- A run on a file system's block, seen by the blocks of the file system: the bytes `f` in the block from the offset on.
abbrev pub overwritten : (ℕ → ℕ → ℕ) → ℕ → ℕ → ℕ → Bytes → ℕ → ℕ → ℕ
overwritten bytes block offset count f block' offset' =
    if block' == block && leb offset offset' && ltb offset' (offset + count)
    then f (offset' - offset)
    else bytes block' offset'

shifted :
    (base offset offset' count block : ℕ) (bytes f : Bytes)
    → write_at bytes (base + offset) count f (base + offset') ≡ (
        if block == block && leb offset offset' && ltb offset' (offset + count)
        then f (offset' - offset)
        else bytes (base + offset'))
shifted base offset offset' count block bytes f =
    let e : base + offset' - (base + offset) ≡ offset' - offset = omega arith in
    ground (arith, ap f e)

-- The same in the bytes of the cached block.
write_at-overwritten :
    (s : DiskCache) (block offset count block' offset' : ℕ) (bytes f : Bytes)
    → IsSized s
    → offset + count ≤ s.fs_block_size
    → offset' < s.fs_block_size
    → block_index_to_cached_index block' s ≡ block_index_to_cached_index block s
    → write_at bytes (offset_in_block block s + offset) count f (offset_in_block block' s + offset')
      ≡ overwritten (λ b o. bytes (offset_in_block b s + o)) block offset count f block' offset'
write_at-overwritten s block offset count block' offset' bytes f z fits h slot =
    let (k, aligned, low, high) = cached_index_lem s block z in
    let (k', aligned', low', high') = cached_index_lem s block' z in
    elim (ℕ_discrete block' block) [
      | yes e ↦
          subst
            (λ x.
              write_at bytes (offset_in_block block s + offset) count f
                (offset_in_block x s + offset')
              ≡ overwritten (λ b o. bytes (offset_in_block b s + o)) block offset count f x offset')
            (sym e) (shifted (offset_in_block block s) offset offset' count block bytes f)
      | no ne ↦
          (let differs : (block' == block) ≡ false = ground (arith, ne) in
            rw differs (
              write_at_outside bytes (offset_in_block block s + offset) count f
                (offset_in_block block' s + offset')
                (λ i small q.
                  products_apart (block' - block_index_to_cached_index block' s)
                    (block - block_index_to_cached_index block s) s.fs_block_size offset'
                    (offset + i) (λ same. ne (omega (arith, same, slot, low, low'))) h
                    (omega (arith, fits, small)) (omega (arith, q)))))
    ]

-- A store into the block at the front, within a block of the file system.
stored_lem :
    (s : DiskCache) (b : CachedBlock) (rest : List CachedBlock) (disk : Bytes)
    (region block offset count : ℕ) (f : Bytes)
    → b.first_block ≡ block_index_to_cached_index block s
    → offset + count ≤ s.fs_block_size
    → IsValid (brought s b rest disk region)
    → SameView s (brought s b rest disk region)
    → let bytes = write_at b.bytes (offset_in_block block s + offset) count f in
      let s' = brought s (record b { is_dirty = true; bytes = bytes }) rest disk region in
      IsValid s'
      × ((block' offset' : ℕ)
          → offset' < s.fs_block_size
          → view s' block' offset' ≡ overwritten (view s) block offset count f block' offset')
unfolding find_block
stored_lem s b rest disk region block offset count f first fits v same =
    let bytes = write_at b.bytes (offset_in_block block s + offset) count f in
    let b' : CachedBlock = record b { is_dirty = true; bytes = bytes } in
    let front = v.entries.0 in
    (
      record {
        sized = IsSized-blocks (brought s b rest disk region) disk (b' ∷ rest) region v.sized;
        within = v.within;
        entries = (
          record {
            slot = front.slot;
            aligned = front.aligned;
            inside = front.inside;
            agrees = λ clean. absurd (ground (arith, clean));
          },
          All-map rest (IsEntry-blocks (brought s b rest disk region) (b' ∷ rest) region)
              v.entries.1,
        );
        distinct = v.distinct;
      },
      λ block' offset' h.
          elim (ℕ_discrete (block_index_to_cached_index block' s)
            (block_index_to_cached_index block s)) [
              | yes slot ↦
                  (let at : b.first_block ≡ block_index_to_cached_index block' s =
                      first ∙ sym slot in
                    front-view s b' rest disk region block' offset' at
                    ∙ write_at-overwritten s block offset count block' offset' b.bytes f
                        (IsSized-blocks (brought s b rest disk region) s.disk s.cached_blocks
                          s.offset_within_region v.sized)
                        fits h slot
                    ∙ ap
                        (λ byte.
                          if block' == block && leb offset offset' && ltb offset' (offset + count)
                          then f (offset' - offset)
                          else byte)
                        (sym (front-view s b rest disk region block' offset' at)
                          ∙ same block' offset' h))
              | no ne ↦
                  (let away : (b.first_block == block_index_to_cached_index block' s) ≡ false =
                      ground (arith, ne, first) in
                    let differs : (block' == block) ≡ false = elim (ℕ_discrete block' block) [
                      | yes e ↦ absurd (ne (ap (λ x. block_index_to_cached_index x s) e))
                      | no ne' ↦ ground (arith, ne')
                    ] in
                    let kept : view (brought s b' rest disk region) block' offset'
                        ≡ view (brought s b rest disk region) block' offset' =
                      rw away refl in
                    rw differs (kept ∙ same block' offset' h))
            ],
    )

answered {ℓ κ} :
    {A : Type ℓ} {S : Type κ} (failed : Bool) (e a : Result ErrorCode A) (s : S)
    → ◌≡◌ {A = Result Fault (Result ErrorCode A × S)}
        (if failed then ok (e, s) else ok (a, s))
        (ok ((if failed then e else a), s))
answered true e a s = refl
answered false e a s = refl

-- The state that `read_one` leaves: with a block at the front.
pub read_one-brought :
    (reach block offset count : ℕ) (s : DiskCache)
    → IsValid s
    → contains s.fs_lba_range (block_to_lba_range (block_index_to_cached_index block s) s) ≡ true
    → offset + count ≤ s.fs_block_size
    → (b : CachedBlock) × (rest : List CachedBlock) × (disk : Bytes) × (region : ℕ) × (read_one
          reach block offset count s
        ≡ ok (
          (if ltb reach count
              then err memory_access_violation
              else ok (tabulate count (λ i. view s block (offset + i)))),
          brought s b rest disk region,
        ))
      × IsValid (brought s b rest disk region)
      × SameView s (brought s b rest disk region)
unfolding read_one
read_one-brought reach block offset count s v inside fits =
    let (b, rest, disk, region, returns, first, valid, same) = cached_block_lem s block v inside in
    let within : leb (offset + count) s.fs_block_size ≡ true = ground (arith, fits) in
    let caching = caching_required s v.sized in
    let bytes : tabulate count (λ i. b.bytes (offset_in_block block s + offset + i))
        ≡ tabulate count (λ i. view s block (offset + i)) =
      tabulate_ext count _ _ (λ i h.
        ap b.bytes (omega arith)
        ∙ sym (front-view s b rest disk region block (offset + i) first)
        ∙ same block (offset + i) (omega (arith, fits, h))) in
    (
      b,
      rest,
      disk,
      region,
      rw (read_one, within, caching, returns, bytes) (answered (ltb reach count) _ _ _),
      valid,
      same,
    )

-- `read_one` in a valid cache, of a block whose logical blocks are in the file system and bytes within the block,
-- succeeds: it gives the bytes that the cache stands for if the user's buffer takes them all and the error if it does
-- not, and the cache is valid and stands for the same afterwards.
pub read_one_lem :
    (reach block offset count : ℕ) (s : DiskCache)
    → IsValid s
    → contains s.fs_lba_range (block_to_lba_range (block_index_to_cached_index block s) s) ≡ true
    → offset + count ≤ s.fs_block_size
    → (s' : DiskCache) × (read_one reach block offset count s
        ≡ ok (
          (if ltb reach count
              then err memory_access_violation
              else ok (tabulate count (λ i. view s block (offset + i)))),
          s',
        ))
      × IsValid s'
      × SameView s s'
read_one_lem reach block offset count s v inside fits =
    let (b, rest, disk, region, returns, valid, same) =
      read_one-brought reach block offset count s v inside fits in
    (brought s b rest disk region, returns, valid, same)

-- `write_one` in a valid cache, of a block whose logical blocks are in the file system and bytes within the block,
-- succeeds. The cache is valid afterwards and stands for the bytes that the copy got through at their place in
-- the block, and for what it stood for everywhere else; the error is given if the copy did not get through.
pub write_one_lem :
    (reach block offset : ℕ) (input : List ℕ) (s : DiskCache)
    → IsValid s
    → contains s.fs_lba_range (block_to_lba_range (block_index_to_cached_index block s) s) ≡ true
    → offset + length input ≤ s.fs_block_size
    → (s' : DiskCache) × (write_one reach block offset input s
        ≡ ok ((if ltb reach (length input) then err memory_access_violation else ok tt), s'))
      × IsValid s'
      × ((block' offset' : ℕ)
          → offset' < s.fs_block_size
          → view s' block' offset'
            ≡ overwritten
                (view s)
                block
                offset
                (min_of reach (length input))
                (λ i. get_or input i 0)
                block'
                offset')
unfolding write_one
write_one_lem reach block offset input s v inside fits =
    let (b, rest, disk, region, returns, first, valid, same) = cached_block_lem s block v inside in
    let within : leb (offset + length input) s.fs_block_size ≡ true = ground (arith, fits) in
    let caching = caching_required s v.sized in
    let copied = min_of reach (length input) in
    let f : Bytes = λ i. get_or input i 0 in
    let bytes = write_at b.bytes (offset_in_block block s + offset) copied f in
    let (valid', seen) =
      stored_lem s b rest disk region block offset copied f first (ground (arith, fits)) valid
        same in
    (
      brought s (record b { is_dirty = true; bytes = bytes }) rest disk region,
      rw (write_one, within, caching, returns) (answered (ltb reach (length input)) _ _ _),
      valid',
      seen,
    )

-- `zero_fill_one` in a valid cache, of a block whose logical blocks are in the file system, succeeds, and the cache
-- is valid and stands for zeros in the block and for what it stood for in the others.
pub zero_fill_one_lem :
    (block : ℕ) (s : DiskCache)
    → IsValid s
    → contains s.fs_lba_range (block_to_lba_range (block_index_to_cached_index block s) s) ≡ true
    → (s' : DiskCache) × (zero_fill_one block s ≡ ok s')
      × IsValid s'
      × ((block' offset' : ℕ)
          → offset' < s.fs_block_size
          → view s' block' offset' ≡ (if block' == block then 0 else view s block' offset'))
unfolding zero_fill_one
zero_fill_one_lem block s v inside =
    let (b, rest, disk, region, returns, first, valid, same) = cached_block_lem s block v inside in
    let caching = caching_required s v.sized in
    let f : Bytes = λ i. 0 in
    let bytes = write_at b.bytes (offset_in_block block s + 0) s.fs_block_size f in
    let (valid', seen) =
      stored_lem s b rest disk region block 0 s.fs_block_size f first (omega arith) valid same in
    let at : offset_in_block block s ≡ offset_in_block block s + 0 = omega arith in
    (
      brought s (record b { is_dirty = true; bytes = bytes }) rest disk region,
      rw (zero_fill_one, caching, returns)
          (ap
            (λ (x : ℕ). ok (
              brought s (record b { is_dirty = true; bytes = write_at b.bytes x s.fs_block_size f })
                rest disk region))
            at),
      valid',
      λ block' offset' h. seen block' offset' h ∙ ground (arith, h),
    )
