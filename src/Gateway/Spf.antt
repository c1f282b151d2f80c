-- ===== src/Gateway/Spf.antt =====
-- SPF evaluation of crates/gateway/src/spf.rs (RFC 7208).
pub mod Address
pub mod Record
pub mod Pieces
pub mod Wellformed
pub mod Verdict
pub mod Evaluator
pub mod Check
pub mod Memory
pub mod Limits
pub mod Amplification
pub mod Policy
pub mod Refinement
pub mod Prefix
