-- ===== src/Permission/Requests.antt =====
-- Pending permission requests (mentra/src/session/permission.rs) and who answers them
-- (mentra/src/session/handle.rs): the map, the locks and channels that its entries share.
pub mod Store
pub mod Resolve
pub mod Kept
pub mod Steps
pub mod Drops
pub mod Leaves
pub mod Settles
pub mod Asks
pub mod Count
pub mod Run
pub mod Answers
mod Examples
