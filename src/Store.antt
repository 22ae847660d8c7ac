-- ===== src/Store.antt =====
-- internal/store: the SQL statements over the tables that the sync engine works on.
pub mod Sql
pub mod Keys
pub mod Mutations
pub mod Tables
pub mod Messages
pub mod Bodies
pub mod Mailboxes
pub mod Steps
mod Tests
