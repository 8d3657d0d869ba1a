-- ===== src/Benthos.antt =====
-- internal/benthos: the embedded runtime.
pub mod ExecutionCache
pub mod Sample
pub mod Completion
