-- ===== src/Audit.antt =====
-- The approval ledger: apps/api/app/audit.
pub mod Record
pub mod Ledger
