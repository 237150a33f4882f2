-- ===== src/Devices.antt =====
-- kernel/devices: the serial line.
pub mod Uart
