-- ===== src/Session.antt =====
-- internal/session: the session tree, its storages and the operations on it.
pub mod Types
pub mod Core
pub mod Tree
pub mod Storage
pub mod Json
pub mod Migrate
pub mod Fork
pub mod Operations
pub mod Memory
pub mod Jsonl
pub mod Calls
pub mod Context
