-- ===== src/Upstream.antt =====
-- internal/upstream: the connection to the remote IMAP server.
pub mod Errors
pub mod Bodies
pub mod Retry
pub mod Session
mod Tests
