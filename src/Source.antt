-- ===== src/Source.antt =====
-- internal/source: unpacking an uploaded archive. Paths are texts of bytes.
pub mod Paths
pub mod Extract
pub mod Detect
