-- ===== src/Help.antt =====
-- internal/help: the documentation of the runtime and its search.
pub mod Distance
pub mod Excerpts
pub mod Index
pub mod Ranking
pub mod Search
