-- ===== src/Cli.antt =====
-- The command line's files (internal/cli).
pub mod Discovery
pub mod Files
pub mod Replace
pub mod Tool
