-- ===== src/Patch/ClaudeCode.antt =====
-- patch/claude_code.go: Claude Code's hooks in its settings.json.
pub mod Handlers
pub mod Install
pub mod Remove
pub mod Status
pub mod Flat
pub mod Installed
pub mod Events
pub mod Removed
pub mod Active
