-- ===== src/Multitasking.antt =====
-- Kernel/Multitasking: the locks that put a thread to sleep.
pub mod Mutex
pub mod SharedMutex
