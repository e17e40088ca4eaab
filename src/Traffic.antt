-- ===== src/Traffic.antt =====
-- src/traffic.rs: traffic accounting of an instance and its billing periods.
pub mod Calendar
pub mod Schedule
pub mod Counters
mod Tests
