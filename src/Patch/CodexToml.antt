-- ===== src/Patch/CodexToml.antt =====
-- patch/codex_toml.go: Codex's config.toml, edited line by line.
pub mod Scan
pub mod Lines
pub mod Document
pub mod Value
pub mod Edit
pub mod Verify
pub mod Kept
pub mod Whole
pub mod Said
pub mod Edited
pub mod Located
