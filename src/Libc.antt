-- ===== src/Libc.antt =====
-- The C library of the repository.
pub mod Stdio
