-- ===== src/Verify.antt =====
-- The simulation of a change and of its reversal before a human approves it: apps/api/app/verify.py.
-- The firewall is a parameter: `read` is `acl_policy`, `none` an exception that it raises; `assess` is
-- `nat_assessment`, `none` when the back end has none or it raises.
pub mod Traced
pub mod Tests
pub mod Report
pub mod Change
pub mod Reversal
