-- ===== src/Platform.antt =====
-- The guards and lookups of the platform package.
pub mod Limit
pub mod Procfs
pub mod Tests
