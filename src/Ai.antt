-- ===== src/Ai.antt =====
-- internal/ai: the provider-neutral message types and the passes over them.
pub mod Types
pub mod Transform
