-- ===== src/Permission.antt =====
-- mentra/src/session/permission.rs and permission/pattern.rs: remembered permission rules.
pub mod Pattern
pub mod Glob
pub mod Scan
pub mod Order
pub mod Alphabet
pub mod Rules
pub mod Listed
pub mod Applies
pub mod Answer
pub mod Governs
pub mod Store
pub mod Edits
pub mod Handle
pub mod Requests
mod Examples
