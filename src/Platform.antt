-- ===== src/Platform.antt =====
-- `PlatformService` of backend/domain/platform.py.
pub mod State
pub mod Service
pub mod Servers
pub mod Schedules
pub mod Seeds
pub mod Reimport
mod Tests
