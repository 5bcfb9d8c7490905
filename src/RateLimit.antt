-- ===== src/RateLimit.antt =====
-- Rate limits: backend/infra/rate_limit.py.
pub mod Limiter
pub mod Windows
mod Tests
