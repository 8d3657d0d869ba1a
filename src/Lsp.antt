-- ===== src/Lsp.antt =====
-- internal/lsp: the language server.
pub mod Lifecycle
pub mod Outbox
pub mod Layout
pub mod Formatting
pub mod Context
pub mod Positions
pub mod Embedded
pub mod Signature
