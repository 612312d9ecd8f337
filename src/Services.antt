-- ===== src/Services.antt =====
-- The packages services and repositories: the accounts, their rows, and what a sync does to them.
pub mod Store
pub mod Account
pub mod Accounts
pub mod Rows
pub mod Sync
pub mod Isolation
pub mod Persisted
pub mod Placing
pub mod Due
pub mod Kept
pub mod Queries
pub mod Tests
pub mod Proxies
pub mod Sharing
