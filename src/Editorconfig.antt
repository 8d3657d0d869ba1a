-- ===== src/Editorconfig.antt =====
-- internal/editorconfig: the settings of a workspace.
pub mod Config
pub mod Source
