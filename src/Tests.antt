-- ===== src/Tests.antt =====
-- The theorems at concrete inputs: a small configuration, and the statements that it meets.
mod Decisions
mod Sessions
mod Switching
mod Stores
mod Memory
mod Patching
mod Journaling
mod Hooks
mod Codec
mod Learning
mod Recognition
mod Sanitizing
mod Runs
