-- ===== src/AgentLoop.antt =====
-- internal/agentloop: the loop of the agent.
pub mod Types
pub mod Tools
pub mod Batch
pub mod Config
pub mod Stream
pub mod Loop
