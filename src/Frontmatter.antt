-- ===== src/Frontmatter.antt =====
-- mentra/src/frontmatter.rs: double-quoted values, written and read back.
pub mod Quote
pub mod Scan
pub mod Parse
pub mod Line
pub mod Fields
pub mod Written
pub mod Skill
pub mod ScanReturns
pub mod Total
pub mod ReadBack
pub mod RoundTrip
mod Examples
