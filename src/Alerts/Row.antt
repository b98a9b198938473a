-- ===== src/Alerts/Row.antt =====
-- The `alerts` and `telegram_digest_items` tables of modules/alerts/alerts.repository.ts. Times are
-- milliseconds. An article link is a list of code points, since canonicalising walks it.
use feedpulse.Base.{ℕ, String, Bool, true, false, Option, List}

pub data DeliveryStatus : Type 0 where
  pending queued retrying sent failed disabled : DeliveryStatus

pub data ChannelStatus : Type 0 where
  pending sent failed : ChannelStatus

-- The keys of `CHANNEL_DELIVERY_STATUS_COLUMNS`.
pub data DeliveryChannel : Type 0 where
  webhook telegram email : DeliveryChannel

pub record AlertRow : Type 0 where
  pub id : ℕ
  pub tenant_id : String
  pub entry_id : ℕ
  pub rule_id : ℕ
  pub matched_rules : List ℕ
  pub canonical_link : Option (List ℕ)
  pub sent : Bool
  pub sent_at : Option ℕ
  pub delivery_status : DeliveryStatus
  pub delivery_attempts : ℕ
  pub last_delivery_attempt_at : Option ℕ
  pub last_delivery_error : Option String
  pub last_delivery_queued_at : Option ℕ
  pub created_at : ℕ
  pub webhook_delivery_status : ChannelStatus
  pub telegram_delivery_status : ChannelStatus
  pub email_delivery_status : ChannelStatus

pub record DigestItem : Type 0 where
  pub id : ℕ
  pub tenant_id : String
  pub alert_id : ℕ
  pub chat_id : String
  pub scheduled_for : ℕ
  pub sent_at : Option ℕ
  pub created_at : ℕ

abbrev pub is_channel_sent : ChannelStatus → Bool
is_channel_sent ChannelStatus.sent = true
is_channel_sent _ = false

abbrev pub is_channel_pending : ChannelStatus → Bool
is_channel_pending ChannelStatus.pending = true
is_channel_pending _ = false

-- The column of a channel.
abbrev pub channel_status : DeliveryChannel → AlertRow → ChannelStatus
channel_status webhook r = r.webhook_delivery_status
channel_status telegram r = r.telegram_delivery_status
channel_status email r = r.email_delivery_status

abbrev pub set_channel_status : DeliveryChannel → ChannelStatus → AlertRow → AlertRow
set_channel_status webhook s r = record r { webhook_delivery_status = s }
set_channel_status telegram s r = record r { telegram_delivery_status = s }
set_channel_status email s r = record r { email_delivery_status = s }
