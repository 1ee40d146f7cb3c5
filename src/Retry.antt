-- ===== src/Retry.antt =====
-- mentra/src/runtime/control/run.rs: the waits between a run's attempts at a provider call.
pub mod Delay
pub mod Bounds
mod Examples
