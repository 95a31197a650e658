-- ===== src/Firewall.antt =====
-- The firewall model: apps/api/app/firewall.
pub mod Ipv4
pub mod Policy
pub mod Normalize
pub mod ObjectGroup
pub mod Nat
