-- ===== src/Tools.antt =====
-- The packages under tools, as far as they keep state of their own.
pub mod Lines
pub mod Edit
pub mod Strings
pub mod MagicWord
pub mod Params
pub mod Diff
pub mod StaleState
