-- ===== src/Opml.antt =====
-- modules/opml-imports: a subscription list is uploaded, parsed into a preview, confirmed and applied.
pub mod Status
pub mod Urls
pub mod Parser
pub mod Walk
pub mod Paths
pub mod Folders
pub mod Tables
pub mod Requests
pub mod Preview
pub mod Apply
pub mod ApplyJob
pub mod Marks
pub mod Lifecycle
pub mod JobMoves
pub mod Creations
pub mod Runs
pub mod Unqueued
pub mod Applied
pub mod Settling
pub mod Distinct
pub mod NewItems
pub mod Tests
pub mod JobTests
