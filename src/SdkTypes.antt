-- ===== src/SdkTypes.antt =====
-- crates/anyclaw-sdk-types: the types that all crates share.
pub mod SessionKey
pub mod Message
pub mod Content
mod Tests
