-- ===== src/Agents.antt =====
-- The package agents, as far as it works on the session's messages.
pub mod Pairing
pub mod Waits
pub mod Pool
pub mod Submit
pub mod ToolRun
pub mod Permission
