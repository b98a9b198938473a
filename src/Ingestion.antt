-- ===== src/Ingestion.antt =====
-- The ingestion worker and its scheduler: modules/ingestion.
pub mod Failure
pub mod Job
pub mod Backoff
pub mod Retrying
pub mod Scheduling
pub mod Enqueues
pub mod Queueing
pub mod Sweeps
pub mod RateLimiter
pub mod Fetcher
pub mod Fetching
pub mod Spacing
pub mod Tests
