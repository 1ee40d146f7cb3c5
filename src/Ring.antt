-- ===== src/Ring.antt =====
-- mentra-provider/src/gateway_ring.rs and gateway_ring/health.rs: the failover ring.
pub mod Member
pub mod Health
pub mod Lookup
pub mod Select
pub mod Rotate
pub mod Failure
pub mod Run
pub mod Threshold
pub mod Call
pub mod Ends
pub mod Classify
mod Examples
