-- ===== src/Gateway.antt =====
-- Gateways for messages: backend/runtime/gateway.py.
pub mod State
pub mod Verify
pub mod Manager
pub mod Replay
pub mod Failures
mod Tests
