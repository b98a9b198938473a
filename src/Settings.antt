-- ===== src/Settings.antt =====
-- The tenant's settings (modules/settings): the table, the encryption of the bot token and its
-- resolution for a delivery.
pub mod Rows
pub mod Secrets
pub mod BotToken
pub mod Vault
pub mod Binding
pub mod Upgrades
pub mod Tests
