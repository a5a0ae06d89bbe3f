-- ===== src/Patch/State.antt =====
-- patch/state.go: the journal of a patch.
pub mod Os
pub mod Journal
pub mod Undone
pub mod Restored
