-- ===== src/Agents.antt =====
-- crates/anyclaw-agents: the agents manager.
pub mod SessionQueue
pub mod Slot
pub mod Sessions
pub mod Incoming
pub mod Recovery
pub mod Prompt
pub mod Completion
pub mod Store
pub mod Boot
mod Tests
