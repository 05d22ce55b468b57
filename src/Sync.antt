-- ===== src/Sync.antt =====
-- Two copies of a chain are compared and merged (src/sync).
pub mod Diff
pub mod Resolve
pub mod Manager
mod Tests
