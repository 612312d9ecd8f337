-- ===== src/Pool/Manager.antt =====
-- pool/manager.py: the pool as a state, and what happens to it as a function on that state. Each
-- function covers the code between two `await`s, so that any interleaving of the coroutines is a
-- sequence of calls.
pub mod Defs
pub mod Run
pub mod Steps
pub mod Count
pub mod Custody
pub mod Moves
pub mod Events
pub mod Answers
pub mod History
pub mod Retry
pub mod Upkeep
