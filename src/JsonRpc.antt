-- ===== src/JsonRpc.antt =====
-- crates/anyclaw-jsonrpc: JSON-RPC over lines.
pub mod Codec
mod Tests
