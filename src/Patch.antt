-- ===== src/Patch.antt =====
-- patch: the edits of an agent's own configuration files.
pub mod CodexToml
pub mod State
pub mod ClaudeCode
pub mod CodexLlm
