-- ===== src/Tool.antt =====
-- internal/tool: the built-in tools.
pub mod Truncate
pub mod Diff
