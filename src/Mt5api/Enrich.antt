-- ===== src/Mt5api/Enrich.antt =====
-- mt5api/enrichment.py: how far the price went against a position and for it.
pub mod Levels
pub mod Segments
pub mod Loop
pub mod Kept
pub mod Outcome
pub mod Bounds
pub mod Tests
