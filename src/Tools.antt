-- ===== src/Tools.antt =====
-- Tools: backend/domain/tools.py.
pub mod State
pub mod Floor
pub mod Registry
pub mod Builtin
pub mod Executor
pub mod Gate
pub mod Bypass
pub mod Audit
pub mod Names
mod Tests
