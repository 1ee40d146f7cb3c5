-- ===== src/Paging.antt =====
-- mentra/src/tool/paging.rs: the windows of an oversized tool result.
pub mod Window
pub mod Slices
pub mod Cut
pub mod Tiles
mod Examples
