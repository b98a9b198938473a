-- ===== src/Throttle.antt =====
-- The limit on inbound requests (shared/http/throttler.module.ts): the counters and the guard.
pub mod Store
pub mod Guard
pub mod Lookups
pub mod Windows
pub mod Tests
