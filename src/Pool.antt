-- ===== src/Pool.antt =====
-- The terminal pool: pool/protocol.py, pool/health.py, pool/worker_handle.py, pool/manager.py.
pub mod Protocol
pub mod Health
pub mod Worker
pub mod Manager
pub mod Tests
