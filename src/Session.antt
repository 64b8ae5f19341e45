-- ===== src/Session.antt =====
-- The package session: one conversation with its message history, active window and sidecar files.
pub mod Message
pub mod Store
pub mod State
pub mod Error
pub mod Append
pub mod Rounds
pub mod Truncate
pub mod Pending
pub mod Whitelist
pub mod Disk
pub mod Modify
pub mod Sanitize
pub mod Compaction
pub mod Laws
