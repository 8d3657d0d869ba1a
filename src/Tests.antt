-- ===== src/Tests.antt =====
-- Tests of the definitions on concrete inputs, and the theorems at inputs that meet their
-- hypotheses.
mod Outbox
mod Lifecycle
mod Cache
mod Layout
mod Formatting
mod Context
mod Fixtures
mod Sample
mod Editorconfig
mod Completion
mod Resolve
mod Positions
mod Help
mod Replace
mod Discovery
mod Tool
mod Embedded
mod Signature
