-- ===== src/Examples.antt =====
-- The theorems at concrete sessions, windows, policies and hosts, and small tests of the operations.
mod Samples
mod Session
mod Modify
mod Compaction
mod Agents
mod Sandbox
mod Network
mod Tools
mod Diff
mod Edit
mod Waits
mod Pool
mod Permission
