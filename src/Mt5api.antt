-- ===== src/Mt5api.antt =====
-- The package mt5api: what a worker process does with its terminal.
pub mod Clock
pub mod Terminal
pub mod Fetch
pub mod Raw
pub mod Build
pub mod Enrich
pub mod History
