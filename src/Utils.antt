-- ===== src/Utils.antt =====
-- The package utils: the redaction of the log and the alerts.
pub mod Logging
pub mod Redacted
pub mod Alerts
pub mod Repeats
pub mod Tests
