-- ===== src/Approval.antt =====
-- Approvals: identities, the dual-approval requests of the freeze switch, and the approvals of
-- single tool calls (src/infra/auth, src/infra/storage/sqlite).
pub mod Identity
pub mod Tables
pub mod Rows
pub mod Writes
pub mod Dual
pub mod ToolCall
pub mod Permission
mod Tests
