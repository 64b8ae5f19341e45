-- ===== src/Session/Laws.antt =====
-- What the operations of the package session guarantee.
pub mod Loading
pub mod Append
pub mod Truncate
pub mod Rounds
pub mod Find
pub mod Delete
pub mod Compaction
pub mod Cooldown
pub mod Pending
pub mod Whitelist
pub mod Sanitize
