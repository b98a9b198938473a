-- ===== src/Notifications.antt =====
-- modules/notifications: the daily email quota.
pub mod Counter
pub mod Quota
pub mod QuotaLaws
pub mod Contention
pub mod Reservations
pub mod Tests
