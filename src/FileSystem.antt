-- ===== src/FileSystem.antt =====
-- Kernel/FileSystem.
pub mod Errors
pub mod Pipe
pub mod DiskCache
pub mod Fat32
