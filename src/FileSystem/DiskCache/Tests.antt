-- ===== src/FileSystem/DiskCache/Tests.antt =====
-- Runs of the disk cache, and its theorems at concrete caches.
use ultra_os.Common.{
  ℕ, ◌+◌, ◌*◌, ◌%◌, ◌<◌, ◌≡◌, inl, inr, refl, arith, ltb, if◌then◌else◌, true, false, List, [], ◌∷◌,
  All, tabulate, get_or, Result, Fault, ok, err, ◌>>=◌,
}
use ultra_os.Memory.Range.{Range}
use ultra_os.FileSystem.Errors.{ErrorCode, memory_access_violation}
use ultra_os.FileSystem.DiskCache.{Bytes, DiskCache, create, read_one, write_one, flush_all}
use ultra_os.FileSystem.DiskCache.View.{block_start, view, IsValid}
use ultra_os.FileSystem.DiskCache.Cached.{SameView}
use ultra_os.FileSystem.DiskCache.Create.{create_lem}
use ultra_os.FileSystem.DiskCache.Transfer.{overwritten, read_one_lem, write_one_lem}
use ultra_os.FileSystem.DiskCache.Flush.{flush_all_lem}

abbrev sevens : Bytes
sevens i = i % 7

abbrev partition : Range
partition = record { begin = 8; end = 40 }

-- One cached block of four blocks, with the last but one block changed.
abbrev dirty_cache : DiskCache
dirty_cache = record {
  fs_lba_range = partition;
  io_size = 4096;
  logical_block_size = 512;
  fs_block_size = 1024;
  fs_blocks_per_io = 4;
  capacity = 1;
  offset_within_region = 4096;
  cached_blocks = record { first_block = 4; is_dirty = true; bytes = λ i. 9 } ∷ [];
  disk = sevens;
}

dirty_cache-IsValid : IsValid dirty_cache
dirty_cache-IsValid = record {
  sized = record {
    block_pos = omega arith;
    blocks_pos = omega arith;
    io = refl;
    part = 1024;
    blocks_part = refl;
    pages = 1;
    page_multiple = refl;
    logical = inl refl;
    capacity_pos = omega arith;
  };
  within = omega arith;
  entries = (
    record {
      slot = 1;
      aligned = refl;
      inside = refl;
      agrees = λ clean. absurd (ground (arith, clean));
    },
    tt,
  );
  distinct = (tt, tt);
}

-- What reads give, one after the other.
reads : List ℕ → DiskCache → Result Fault (List (Result ErrorCode (List ℕ)))
unfolding read_one
reads [] s = ok []
reads (block ∷ blocks) s = do
  (got, s') ← read_one 4096 block 3 2 s
  rest ← reads blocks s'
  ok (got ∷ rest)

-- A write, reads that evict it, and a read of what the disk has got.
evicting_run :
    (do
      s ← create false 512 partition 1024 4 sevens
      (written, s') ← write_one 4096 5 3 (1 ∷ 2 ∷ []) s
      reads (5 ∷ 0 ∷ 5 ∷ 6 ∷ []) s')
    ≡ ok (ok (1 ∷ 2 ∷ []) ∷ ok (4 ∷ 5 ∷ []) ∷ ok (1 ∷ 2 ∷ []) ∷ ok (2 ∷ 3 ∷ []) ∷ [])
unfolding create write_one reads
evicting_run = refl

-- A RAM disk is not written.
ram_disk_run :
    (do
      s ← create true 512 partition 1024 4 sevens
      (written, s') ← write_one 4096 5 3 (1 ∷ 2 ∷ []) s
      reads (5 ∷ []) s')
    ≡ ok (ok (tabulate 2 (λ i. sevens (5123 + i))) ∷ [])
unfolding create write_one reads
ram_disk_run = refl

create_lem_example :
    (s : DiskCache) × (create false 512 partition 1024 4 sevens ≡ ok s)
    × IsValid s
    × ((block offset : ℕ) → view s block offset ≡ sevens (8 * 512 + block * 1024 + offset))
create_lem_example =
    create_lem 512 partition 1024 4 sevens (inl refl) (inr (4, omega arith, refl)) (omega arith)

read_one_lem_example :
    (s' : DiskCache) × (read_one 5 1 3 2 dirty_cache
      ≡ ok (
        (if ltb 5 2
            then err memory_access_violation
            else ok (tabulate 2 (λ i. view dirty_cache 1 (3 + i)))),
        s',
      ))
    × IsValid s'
    × SameView dirty_cache s'
read_one_lem_example = read_one_lem 5 1 3 2 dirty_cache dirty_cache-IsValid refl (omega arith)

write_one_lem_example :
    (s' : DiskCache) × (write_one 1 1 3 (6 ∷ 5 ∷ []) dirty_cache
      ≡ ok ((if ltb 1 2 then err memory_access_violation else ok tt), s'))
    × IsValid s'
    × ((block' offset' : ℕ)
        → offset' < 1024
        → view s' block' offset'
          ≡ overwritten (view dirty_cache) 1 3 1 (λ i. get_or (6 ∷ 5 ∷ []) i 0) block' offset')
write_one_lem_example =
    write_one_lem 1 1 3 (6 ∷ 5 ∷ []) dirty_cache dirty_cache-IsValid refl (omega arith)

flush_all_lem_example :
    (s' : DiskCache) × (flush_all dirty_cache ≡ ok s')
    × IsValid s'
    × All (λ b. b.is_dirty ≡ false) s'.cached_blocks
    × SameView dirty_cache s'
    × ((block offset : ℕ)
        → offset < 1024
        → s'.disk (block_start dirty_cache block + offset) ≡ view dirty_cache block offset)
flush_all_lem_example = flush_all_lem dirty_cache dirty_cache-IsValid
