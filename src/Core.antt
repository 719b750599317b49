-- ===== src/Core.antt =====
-- crates/anyclaw-core: restart delays, crash counting and the lifecycle of a slot.
pub mod Backoff
pub mod CrashTracker
pub mod SlotLifecycle
mod Tests
