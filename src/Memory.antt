-- ===== src/Memory.antt =====
-- src/memory: byte blocks and strings (string.c) and the kernel heap (alloc.c).
pub mod Block
pub mod Text
pub mod Heap
