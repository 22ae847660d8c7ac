-- ===== src/Syncer.antt =====
-- internal/syncer: the engine that mirrors upstream mailboxes into local storage.
pub mod NumSets
pub mod Claims
pub mod Planner
pub mod Priority
pub mod Headers
pub mod Metadata
pub mod Bodies
pub mod Account
pub mod Replay
pub mod Pool
pub mod Mirror
mod Tests
