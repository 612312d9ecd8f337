-- ===== src/Pool/Health.antt =====
-- pool/health.py: the health board of the terminals. A clock reading is an argument, in
-- microseconds: `now` of the wall clock, `mono` of the monotonic clock. A method that indexes
-- `self.terminals[path]` is `none` on an unknown path (KeyError).
pub mod Defs
pub mod Record
pub mod Board
pub mod Invariant
pub mod Verdict
pub mod Placement
pub mod Quorum
