-- ===== src/Connlimit.antt =====
-- src/connlimit.rs: temporary caps on the TCP connections of an instance.
pub mod Policy
pub mod Firewall
pub mod Manager
mod Tests
