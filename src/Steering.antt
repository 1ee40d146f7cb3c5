-- ===== src/Steering.antt =====
-- mentra/src/agent/steering.rs: the queues of live steering and of deferred follow-ups.
pub mod Queue
pub mod Kept
pub mod Run
pub mod InFlight
pub mod Restored
mod Examples
