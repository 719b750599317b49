-- ===== src/Channels.antt =====
-- crates/anyclaw-channels: the channels manager.
pub mod AccessControl
pub mod Context
pub mod Manager
mod Tests
