-- ===== src/Tests.antt =====
-- The theorems at concrete inputs.
pub mod Scenario
pub mod Tree
pub mod Storage
pub mod Context
pub mod Harness
pub mod Loop
pub mod Tool
pub mod Retry
pub mod Turns
pub mod Json
pub mod Diff
pub mod Transient
pub mod Migrate
pub mod Fork
