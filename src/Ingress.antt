-- ===== src/Ingress.antt =====
-- Alerts from outside: apps/api/app/ingress.
pub mod Alertmanager
