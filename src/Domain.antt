-- ===== src/Domain.antt =====
-- The package domain: what a sync brings, and its rows.
pub mod Fx
pub mod Rows
pub mod Tests
