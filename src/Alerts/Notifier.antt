-- ===== src/Alerts/Notifier.antt =====
-- The ports of a delivery: `AlertNotifierPort` (modules/notifications/domain/alert-notifier.port.ts),
-- the tenant's settings, and the configuration. What the network answers is an argument.
use feedpulse.Base.{ℕ, String, Bool, Option, List}
use feedpulse.Notifications.Quota.{Command}

pub data TelegramDeliveryMode : Type 0 where
  instant digest_10m : TelegramDeliveryMode

-- The part of `TenantSettings` that a delivery reads.
pub record TenantSettings : Type 0 where
  pub webhook_notifier_url : Option String
  pub recipient_emails : List String
  pub telegram_chat_ids : List String
  pub telegram_delivery_mode : TelegramDeliveryMode

-- A send answers none, or the message of the error that it throws.
pub record Notifier : Type 0 where
  pub is_enabled : Bool
  pub is_email_enabled : Bool
  pub is_telegram_enabled : Option String → Bool
  pub send_webhook : ℕ → String → Option String
  pub send_email : ℕ → List String → Option String
  pub send_telegram : ℕ → String → Option String → Option String

-- What surrounds one delivery: the clock, the settings of the alert's tenant and its bot token, the
-- configuration, the notifier, and the Redis commands that throw.
pub record Env : Type 0 where
  pub now : ℕ
  pub utc_day : ℕ
  pub settings : Option TenantSettings
  pub telegram_bot_token : Option String
  pub webhook_notifier_url : Option String
  pub resend_daily_limit : ℕ
  pub notifier : Notifier
  pub redis_fails : Command → Bool
  -- A number in a template literal.
  pub print_number : ℕ → String
