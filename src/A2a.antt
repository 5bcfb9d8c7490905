-- ===== src/A2a.antt =====
-- The A2A connections and tasks of backend/domain/a2a.py.
pub mod State
pub mod Cards
pub mod Connections
pub mod Tasks
pub mod Stream
pub mod Names
mod Tests
