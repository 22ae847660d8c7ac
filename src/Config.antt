-- ===== src/Config.antt =====
-- internal/config: the configuration and what it has to satisfy.
pub mod Validate
pub mod Load
mod Tests
