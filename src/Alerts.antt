-- ===== src/Alerts.antt =====
-- modules/alerts: the alert rows, their delivery, and the Telegram digest.
pub mod Row
pub mod Marks
pub mod Notifier
pub mod DigestQueue
pub mod Delivery
pub mod Process
pub mod Rows
pub mod Monotone
pub mod Calls
pub mod Outcome
pub mod Columns
pub mod Completion
pub mod Unsent
pub mod Digests
pub mod Converging
pub mod Repairs
pub mod Worker
pub mod DeadLetters
pub mod Tests
pub mod SweepTests
