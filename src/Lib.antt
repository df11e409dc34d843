-- ===== src/Lib.antt =====
-- Verification of UltraOS, a kernel in C++ for x86, in its AMD64 build: words are 64 bits wide.
--
-- The parts, and the files that model them.
--   Memory/Page           Kernel/Memory/Page.h: rounding to pages.
--   Memory/Range          Kernel/Memory/Range.h: half-open ranges of addresses (`BasicRange`).
--   Memory/VirtualAllocator
--                         Kernel/Memory/VirtualAllocator.{h,cpp}: which ranges of an address space
--                         are handed out. `allocate(size_t, size_t)` is `allocate`,
--                         `allocate(Range)` is `allocate_range`; RangeSet has the operations of the
--                         ordered set, and the other modules the lemmas for one operation each.
--   Memory/BitArray       Kernel/Common/DynamicBitArray.h: bits in units of 64.
--   Memory/PhysicalRegion Kernel/Memory/PhysicalRegion.{h,cpp}: the pages of a range of physical
--                         memory, on top of the bit array and of ranges.
--   Memory/MemoryMap      Kernel/Memory/MemoryMap.{h,cpp}: the map of physical memory that the BIOS
--                         reports, cleaned up; it aligns ranges to pages.
--   Memory/Heap           Kernel/Memory/HeapAllocator.{h,cpp}: the heap of the kernel, blocks of chunks
--                         with a bitmap of two-bit identifiers, which is a list of numbers here.
--   FileSystem/Errors     Shared/Error.h and Kernel/Core/ErrorCode.h.
--   FileSystem/Pipe       Kernel/FileSystem/Pipe.{h,cpp}: byte pipes between threads.
--   FileSystem/DiskCache  Kernel/FileSystem/DiskCache.{h,cpp}: the cache of disk blocks between a file
--                         system and a device. `View` says what bytes a cache stands for, `Create`,
--                         `Transfer` and `Flush` what the operations do to them, and `Slots`, `Cached`,
--                         `Evict`, `Lookup` and `Access` hold the lemmas.
--   FileSystem/Fat32      Kernel/FileSystem/FAT32/FAT32.{h,cpp}: the table of clusters of a volume, which
--                         is what the disk cache of the table stands for, and the ranges of a file
--                         (`Files`). `Table` describes tables, `Scan`, `Candidates`, `Allocate` and
--                         `Allocated` the allocation of a chain, `Chains` and `Free` what follows and
--                         frees one, `Capacity` and `Ranges` the counting and the ranges, and
--                         `Reading` and `Read` how a file is read through the disk cache of the data.
--   Multitasking/Mutex, Multitasking/SharedMutex
--                         Kernel/Multitasking/Mutex.{h,cpp}: the sleeping locks.
--   Time                  Kernel/Time/Time.{h,cpp}: the calendar and the clock.
--   Utilities             Kernel/Common/Utilities.h: the binary searches and the sort by insertion.
--   RedBlackTree          Kernel/Common/RedBlackTree.h: the tree behind `Set` and `Map`. A pointer to a
--                         node is a `Place`: the node, and the path up to the root that its parent
--                         pointers lead through. `Insertion` and `Removal` hold the rebalancing,
--                         `Container` the ends that the super root remembers and the size.
--   Common                shared types and lemmas: results, lists over native numbers, tests, words.
--
-- How the code is modelled. A method takes the state of its object and returns it; a failed `ASSERT`
-- and a `runtime::panic` are the faults of a `Result`, and an `ErrorOr<T>` is a `Result` with an
-- error code. Arithmetic on words is written with its wrap where it can leave the range. A critical
-- section of a lock is one step; the systems of threads in Pipe/Wakeup, Mutex/Exclusion and
-- SharedMutex/Exclusion are relations whose steps are those sections, so that their runs are all
-- the interleavings. `unblock()` puts a thread on the list `woken`, where it stays until it runs.
-- The ordered sets of the virtual allocator are lists of their elements in order, which is what
-- RedBlackTree shows its tree to stand for, and a storage unit of the bit
-- array is the list of its bits. Memory that a copy reads or writes and that may fault is a
-- parameter: `reachable` says which bytes of a user's buffer can be copied.
--
-- Bounds and fuel. The copy loops of a pipe get as much fuel as there are bytes to copy; each round
-- copies at least one. The loop over the years of `from_unix` gets one round for each 365 days and
-- one more, the loop over the months twelve. The correction of the memory map takes its fuel as an
-- argument; one round for each entry and one more is enough for a map that needs no correction.
-- `fix_double_black` goes up by a node or makes the parent red, after which it ends in two more calls:
-- four more than the depth of the node are enough.
-- The search of the heap and the loop that frees get a round for each chunk and one more; each round
-- goes on by a chunk at least.
-- `File::read` gets a round for each byte and one more; out of rounds it is a panic, which the theorem excludes.
-- The loops along a chain of clusters get a round for each cluster of the chain.
-- The theorems on these functions say that they return.
--
-- In RedBlackTree, `none` in place of a tree is a failed assertion. What is left out: logging, the virtual
-- region behind a pipe's buffer (a list of bytes of its capacity), and the scheduler behind
-- blocking (a thread that is unblocked runs at some later step). Not modelled are `generate_from`,
-- which composes the steps on the memory map, the layout and the refill of the heap, the writing of
-- files and the directories of FAT32, the VFS, the scheduler, the drivers and the window manager. The device behind the disk
-- cache is a function from the address of a byte to the byte, and its requests succeed.
pub mod Common
pub mod FileSystem
pub mod Memory
pub mod Multitasking
pub mod RedBlackTree
pub mod Time
pub mod Utilities
