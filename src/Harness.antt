-- ===== src/Harness.antt =====
-- internal/harness: compaction of a branch (compact.go).
pub mod Estimate
pub mod CutPoint
pub mod Prepare
