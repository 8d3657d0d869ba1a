-- ===== src/Mapping.antt =====
-- The mapping package: internal/mapping.
pub mod Fixtures
pub mod Resolve
