-- ===== src/Resilience.antt =====
-- Calls of outside services: backend/infra/resilience.py.
pub mod Policy
pub mod Call
pub mod Attempts
pub mod Circuit
mod Tests
