-- ===== src/Mailstore.antt =====
-- internal/mailstore: the text made of a parsed message.
pub mod Truncate
pub mod Markup
mod Tests
