-- ===== src/Filesystem.antt =====
-- kernel/filesystem: the parts of a path.
pub mod PathString
