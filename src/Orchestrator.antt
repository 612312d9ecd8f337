-- ===== src/Orchestrator.antt =====
-- The package orchestrator: what the routes answer, and the schemas of the answers.
pub mod Answers
pub mod Routes
pub mod Fit
pub mod Report
pub mod Clean
pub mod Tests
