-- ===== src/Pci.antt =====
-- kernel/devices/pci: configuration addresses, configuration registers, enumeration, base addresses.
pub mod Address
pub mod Register
pub mod Layout
pub mod Bar
pub mod Msi
pub mod Header
pub mod Capability
pub mod HostController
pub mod Enumerate
pub mod EnableMsix
mod Tests
