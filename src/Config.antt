-- ===== src/Config.antt =====
-- internal/config: the flags and the environment.
pub mod Settings
pub mod Parse
pub mod Validate
pub mod Accepted
pub mod Sources
pub mod Tests
