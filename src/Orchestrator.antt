-- ===== src/Orchestrator.antt =====
-- internal/orchestrator: the retries of a turn, and the delays between them.
pub mod Retry
pub mod Transient
