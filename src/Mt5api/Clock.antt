-- ===== src/Mt5api/Clock.antt =====
-- mt5api/clock.py: the offset of a broker's server clock from UTC, and how it is measured.
pub mod Times
pub mod Defs
pub mod Reading
pub mod Week
pub mod Steps
pub mod Measure
pub mod Switches
pub mod Tests
