-- ===== src/Telegram.antt =====
-- ext/channels/telegram: the Telegram channel.
pub mod Permissions
pub mod Split
pub mod Deliver
pub mod Turn
pub mod Formatting
mod Tests
