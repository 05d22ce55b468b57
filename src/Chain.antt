-- ===== src/Chain.antt =====
-- Chains of blocks in a directory of files (infra/storage/chain-adapter.ts).
pub mod Json
pub mod Block
pub mod Linked
pub mod Names
pub mod Directory
pub mod Append
pub mod Lock
pub mod Tamper
pub mod Verify
mod Tests
