-- ===== src/Mt5api/Build.antt =====
-- The package mt5api/builders: what a sync brings, built from the rows of the terminal.
pub mod Orders
pub mod Comment
pub mod Others
pub mod Position
pub mod Payload
pub mod Groups
pub mod Totals
pub mod Tests
