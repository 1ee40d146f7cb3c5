-- ===== src/Truncation.antt =====
-- mentra/src/tool/truncation.rs: the two windows of an oversized tool result.
pub mod Limit
pub mod Lines
pub mod Taken
pub mod Shares
pub mod Windows
mod Examples
