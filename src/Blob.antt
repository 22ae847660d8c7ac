-- ===== src/Blob.antt =====
-- internal/blob: the content-addressed store of message bodies and parts.
pub mod Keys
pub mod Memory
pub mod Files
mod Tests
