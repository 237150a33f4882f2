-- ===== src/Libk.antt =====
-- The kernel's own libraries.
pub mod Text
pub mod Monotonic
pub mod DoublyLinked
pub mod Bitset
pub mod Optional
