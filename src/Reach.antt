-- ===== src/Reach.antt =====
-- crates/reachability-adapter: the registration table, the wire formats and the public ingress.
pub mod Registry
pub mod Reader
pub mod Wire
pub mod Sni
pub mod Ingress
pub mod Auth
pub mod Accept
