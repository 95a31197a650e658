-- ===== src/Auth.antt =====
-- Who may do what: apps/api/app/auth and routers/auth.py.
pub mod RateLimit
pub mod Access
pub mod Totp
pub mod Login
