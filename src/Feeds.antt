-- ===== src/Feeds.antt =====
-- modules/feeds: the `feeds` table, the scheduler's claims on it, and the edits of a tenant.
pub mod Row
pub mod Claim
pub mod Editing
pub mod Keys
pub mod Registration
pub mod Quota
pub mod Registering
pub mod Validation
pub mod Probing
pub mod Priority
pub mod Batch
pub mod Claiming
pub mod Exclusion
pub mod Recovery
pub mod Disabling
pub mod Tests
pub mod RecoveryTests
pub mod ProbeTests
