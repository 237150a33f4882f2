-- ===== src/Memory.antt =====
-- kernel/memory: the physical page allocator, the kernel heap and the page tables.
pub mod Pmm
pub mod Kmalloc
