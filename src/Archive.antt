-- ===== src/Archive.antt =====
-- internal/archive: the ZIP archives that a collector writes and a server validates.
pub mod Error
pub mod Paths
pub mod Describe
pub mod Digest
pub mod Validate
pub mod Write
pub mod Directory
