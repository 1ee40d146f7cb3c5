-- ===== src/Tasks.antt =====
-- mentra/src/runtime/task.rs and task/: the persisted board of tasks.
pub mod Types
pub mod Ids
pub mod Graph
pub mod Status
pub mod Board
pub mod Update
pub mod Lookup
pub mod Fuel
pub mod Search
pub mod Acyclic
pub mod WellFormed
pub mod Links
pub mod Preserve
pub mod PreserveStatus
pub mod History
pub mod Store
pub mod Complete
pub mod Cycles
mod Examples
