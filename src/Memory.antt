-- ===== src/Memory.antt =====
-- Kernel/system/MemoryManagement: the kernel's heap, the heaps of processes, and the buddy system.
pub mod Chunks
pub mod Kmem
pub mod Pmem
pub mod Buddy
pub mod Memlib
