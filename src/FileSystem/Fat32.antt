-- ===== src/FileSystem/Fat32.antt =====
-- Kernel/FileSystem/FAT32/FAT32.{h,cpp}: the table of clusters of a FAT32 volume, the chains in it, and the
-- contiguous ranges of a file. The table is the function from the index of an entry to the entry: it is what
-- `m_fat_cache` stands for, a disk cache whose blocks are the entries.
pub mod Table
pub mod Chains
pub mod Capacity
pub mod Scan
pub mod Allocate
pub mod Free
pub mod Candidates
pub mod Allocated
pub mod Files
pub mod Ranges
pub mod Reading
pub mod Read
mod Tests
use ultra_os.Common.{
  ℕ, zero, suc, ◌+◌, ◌-◌, ◌*◌, ◌≤◌, Bool, true, false, not, ltb, leb, ◌==◌, if◌then◌else◌, List, [],
  ◌∷◌, ◌++◌, Option, none, some, length, get_elem?, Result, Fault, assertion, panic, guard, ok, err,
  ◌>>=◌, ◌>>◌,
}
use ultra_os.Utilities.{lower_bound}
use ultra_os.Memory.BitArray.{units_of}

pub data FatEntryType : Type 0 where
  free reserved bad end_of_chain link : FatEntryType

abbrev pub free_cluster : ℕ
free_cluster = 0

abbrev pub bad_cluster : ℕ
bad_cluster = 268435447

abbrev pub end_of_chain_min_cluster : ℕ
end_of_chain_min_cluster = 268435448

abbrev pub reserved_cluster_count : ℕ
reserved_cluster_count = 2

unfoldable pub entry_type_of_fat_value : ℕ → FatEntryType
entry_type_of_fat_value value =
    if value == 0
    then free
    else if value == 1
    then reserved
    else if leb end_of_chain_min_cluster value
    then end_of_chain
    else if value == bad_cluster
    then bad
    else link

abbrev pub is_free : FatEntryType → Bool
is_free free = true
is_free reserved = false
is_free bad = false
is_free end_of_chain = false
is_free link = false

abbrev pub is_end : FatEntryType → Bool
is_end free = false
is_end reserved = false
is_end bad = false
is_end end_of_chain = true
is_end link = false

abbrev pub is_link : FatEntryType → Bool
is_link free = false
is_link reserved = false
is_link bad = false
is_link end_of_chain = false
is_link link = true

abbrev pub Entries : Type 0
Entries = ℕ → ℕ

pub record Volume : Type 0 where
  pub entries : Entries
  pub cluster_count : ℕ
  pub end_of_chain_value : ℕ
  pub last_free_cluster : ℕ
  pub free_clusters : ℕ

abbrev pub fat_entry_at : ℕ → Volume → ℕ
fat_entry_at index v = v.entries index

abbrev pub set_entry : ℕ → ℕ → Entries → Entries
set_entry index value entries i = if i == index then value else entries i

abbrev pub set_fat_entry_at : ℕ → ℕ → Volume → Volume
set_fat_entry_at index value v = record v { entries = set_entry index value v.entries }

-- `pure_cluster_value`.
abbrev pub pure_cluster_value : ℕ → Result Fault ℕ
pure_cluster_value value = do
  guard (leb reserved_cluster_count value) assertion
  ok (value - reserved_cluster_count)

-- The loop of `calculate_capacity`, over the entries 2 to `n + 1` from the last; the cluster that it stores is the
-- entry, not its index.
unfoldable pub capacity_loop : ℕ → Volume → Volume
capacity_loop zero v = v
capacity_loop (suc n) v =
    let counted = record v {
      free_clusters = v.free_clusters + 1;
      last_free_cluster = fat_entry_at (suc n + 1) v;
    } in
    capacity_loop n (if fat_entry_at (suc n + 1) v == free_cluster then counted else v)

unfoldable pub calculate_capacity : Volume → Volume
unfolding capacity_loop
calculate_capacity v = capacity_loop v.cluster_count v

unfoldable pub nth_cluster_in_chain : ℕ → ℕ → Volume → Result Fault ℕ
unfolding entry_type_of_fat_value
nth_cluster_in_chain current zero v = ok current
nth_cluster_in_chain current (suc n) v = do
  let next = fat_entry_at current v
  guard (not (is_end (entry_type_of_fat_value next))) assertion
  nth_cluster_in_chain next n v

-- `none` is a loop that has not ended.
unfoldable pub last_cluster_in_chain : ℕ → ℕ → Volume → Option ℕ
unfolding entry_type_of_fat_value
last_cluster_in_chain zero current v = none
last_cluster_in_chain (suc fuel) current v =
    let next = fat_entry_at current v in
    let rest = last_cluster_in_chain fuel next v in
    if not (is_link (entry_type_of_fat_value next)) then some current else rest

-- What `allocate_cluster_chain` keeps in its loops.
pub record Chaining : Type 0 where
  pub table : Entries
  pub prev : ℕ
  pub chain : List ℕ

abbrev pub take_cluster : ℕ → Chaining → Chaining
take_cluster cluster c = record {
  table = if not (c.prev == free_cluster) then set_entry c.prev cluster c.table else c.table;
  prev = cluster;
  chain = c.chain ++ cluster ∷ [];
}

-- The inner loop over `n` clusters; it stops when the chain has its length.
unfoldable pub scan : ℕ → ℕ → ℕ → Chaining → Chaining
unfolding entry_type_of_fat_value
scan count zero cluster c = c
scan count (suc n) cluster c =
    let next =
      if is_free (entry_type_of_fat_value (c.table cluster)) then take_cluster cluster c else c in
    let rest = scan count n (cluster + 1) next in if length next.chain == count then next else rest

-- Both rounds, from the hint on and before it, and what is done when the chain has its length.
unfoldable pub allocate_cluster_chain : ℕ → ℕ → Volume → Result Fault (List ℕ × Volume)
unfolding scan
allocate_cluster_chain count link_to v = do
  guard (not (count == 0)) assertion
  guard (leb count v.free_clusters) assertion
  let hint = v.last_free_cluster
  let start : Chaining = record { table = v.entries; prev = link_to; chain = [] }
  let first = scan count (v.cluster_count - hint) hint start
  let second =
      if length first.chain == count
      then first
      else scan count (hint - reserved_cluster_count) reserved_cluster_count first
  (if length second.chain == count
      then ok (
        second.chain,
        record v {
          entries = set_entry second.prev v.end_of_chain_value second.table;
          last_free_cluster = second.prev + 1;
          free_clusters = v.free_clusters - count;
        },
      )
      else err panic)

pub data FreeMode : Type 0 where
  keep_first including_first : FreeMode

-- The loop that frees; `none` is a loop that has not ended.
unfoldable pub free_loop : ℕ → ℕ → Volume → Option Volume
unfolding entry_type_of_fat_value
free_loop zero current v = none
free_loop (suc fuel) current v =
    let next = fat_entry_at current v in
    let v' = set_fat_entry_at current free_cluster v in
    let rest = free_loop fuel next v' in
    if is_end (entry_type_of_fat_value next) then some v' else rest

unfoldable pub free_cluster_chain_starting_at : ℕ → ℕ → FreeMode → Volume → Option Volume
unfolding free_loop
free_cluster_chain_starting_at fuel first keep_first v =
    free_loop fuel (fat_entry_at first v) (set_fat_entry_at first v.end_of_chain_value v)
free_cluster_chain_starting_at fuel first including_first v = free_loop fuel first v
