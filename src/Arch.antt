-- ===== src/Arch.antt =====
-- src/arch/x86: the physical page allocator, the page tables and the segment descriptors.
pub mod Pmm
pub mod Gdt
pub mod Paging
