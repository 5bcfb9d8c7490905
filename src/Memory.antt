-- ===== src/Memory.antt =====
-- `MemoryService` of backend/domain/memory.py.
pub mod State
pub mod Files
pub mod Tokens
pub mod Index
pub mod Create
pub mod Service
pub mod Reports
pub mod Proposals
pub mod Ranking
pub mod Search
pub mod Effects
pub mod Restore
pub mod Steps
pub mod Replace
pub mod Found
pub mod Applied
pub mod Lines
pub mod Sync
pub mod Pieces
pub mod Printed
mod Tests
