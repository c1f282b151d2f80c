-- ===== src/Gateway.antt =====
-- crates/gateway: the outbound sender guard, the alias store, SPF, forwarded addresses, vanity names,
-- quotas, admission, and the inbound session with its cold-sender gate.
pub mod Guard
pub mod Alias
pub mod Spf
pub mod Forwarded
pub mod Vanity
pub mod Quota
pub mod Admission
pub mod Cold
pub mod Smtp
pub mod Session
