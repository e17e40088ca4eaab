-- ===== src/Platform.antt =====
-- src/platform: the session with the platform and the commands that it sends.
pub mod Commands
pub mod Session
pub mod Fake
mod Tests
