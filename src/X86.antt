-- ===== src/X86.antt =====
-- The x86 platform: the I/O APIC, descriptors of segments and gates, and page tables.
pub mod Ioapic
pub mod Descriptor
pub mod Paging
pub mod Lapic
pub mod Timer
