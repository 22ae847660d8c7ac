-- ===== src/Imapsrv.antt =====
-- internal/imapsrv: the IMAP server that mail clients connect to.
pub mod Flags
pub mod Sections
pub mod Session
pub mod Search
pub mod Listing
pub mod Addresses
pub mod Statuses
mod Tests
