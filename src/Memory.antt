-- ===== src/Memory.antt =====
-- Kernel/Memory.
pub mod Page
pub mod Range
pub mod BitArray
pub mod Heap
pub mod MemoryMap
pub mod PhysicalRegion
pub mod VirtualAllocator
mod Tests
