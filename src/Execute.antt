-- ===== src/Execute.antt =====
-- Carrying out an approved change: apps/api/app/execute.
pub mod Base
pub mod Tests
pub mod Render
pub mod Session
pub mod Guard
pub mod Live
pub mod Device
pub mod Idempotent
