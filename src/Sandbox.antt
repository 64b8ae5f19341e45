-- ===== src/Sandbox.antt =====
-- The package sandbox: decisions on files, network targets and commands.
pub mod Host
pub mod Path
pub mod Glob
pub mod Decision
pub mod Policy
pub mod State
pub mod File
pub mod Net
pub mod Url
pub mod Extract
pub mod Command
