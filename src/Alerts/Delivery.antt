-- ===== src/Alerts/Delivery.antt =====
-- `DeliverAlertUseCase` and `ProcessAlertDeliveryUseCase` of modules/alerts/application. The database
-- answers every statement; a send may fail. `calls` records what the notifier is asked to send.
use feedpulse.Base.{
  ℕ, String, Bool, true, false, not, ◌&&◌, Option, none, some, List, [], ◌∷◌, ◌++◌, str_eq,
  if◌then◌else◌,
}
use Prim.Native.String
use feedpulse.Notifications.Counter.{Key, Redis}
use feedpulse.Notifications.Quota.{EmailQuotaDecision, reserve, release}
use feedpulse.Alerts.Row.{
  AlertRow, DigestItem, DeliveryChannel, webhook, telegram, email, is_channel_sent,
}
use feedpulse.Alerts.Marks.{mark_channel_delivered, mark_channel_failed}
use feedpulse.Alerts.Notifier.{TelegramDeliveryMode, instant, digest_10m, TenantSettings, Env}

-- A call of the notifier for one alert.
pub data Call : Type 0 where
  webhook_call : (url : String) → Call
  email_call : (recipients : List String) → Call
  telegram_call : (chat_id : String) → Call

abbrev pub channel_of : Call → DeliveryChannel
channel_of (webhook_call url) = webhook
channel_of (email_call recipients) = email
channel_of (telegram_call chat_id) = telegram

pub record World : Type 0 where
  pub alerts : List AlertRow
  pub digest_items : List DigestItem
  pub redis : Redis
  pub calls : List Call
  pub alerts_sent_metric : ℕ

abbrev on_alerts : (List AlertRow → List AlertRow) → World → World
on_alerts f w = record w { alerts = f w.alerts }

abbrev pub webhook_of : Option TenantSettings → Option String
webhook_of none = none
webhook_of (some s) = s.webhook_notifier_url

abbrev pub recipients_of : Option TenantSettings → List String
recipients_of none = []
recipients_of (some s) = s.recipient_emails

abbrev pub chats_of : Option TenantSettings → List String
chats_of none = []
chats_of (some s) = s.telegram_chat_ids

-- The default mode is instant.
abbrev pub mode_of : Option TenantSettings → TelegramDeliveryMode
mode_of none = instant
mode_of (some s) = s.telegram_delivery_mode

abbrev pub is_instant : TelegramDeliveryMode → Bool
is_instant instant = true
is_instant digest_10m = false

-- `tenantSettings?.webhookNotifierUrl ?? config ?? null`, and `Boolean(url)`: the empty text is no
-- url.
abbrev pub first_url : Option String → Option String → Option String
first_url (some url) config = some url
first_url none config = config

unfoldable pub notifier_url : Env → Option String
notifier_url env = first_url (webhook_of env.settings) env.webhook_notifier_url

abbrev pub is_url : Option String → Bool
is_url none = false
is_url (some url) = not (str_eq url "")

abbrev pub url_text : Option String → String
url_text none = ""
url_text (some url) = url

abbrev pub nonempty {ℓ} : {A : Type ℓ} → List A → Bool
nonempty [] = false
nonempty (x ∷ xs) = true

unfoldable pub has_webhook : Env → Bool
has_webhook env = is_url (notifier_url env)

unfoldable pub has_email : Env → Bool
has_email env = nonempty (recipients_of env.settings)

unfoldable pub has_telegram : Env → Bool
has_telegram env = nonempty (chats_of env.settings) && is_instant (mode_of env.settings)

unfoldable pub should_attempt_webhook : Env → AlertRow → Bool
should_attempt_webhook env alert =
    has_webhook env && not (is_channel_sent alert.webhook_delivery_status)

unfoldable pub should_attempt_email : Env → AlertRow → Bool
should_attempt_email env alert =
    has_email env
    && env.notifier.is_email_enabled
    && not (is_channel_sent alert.email_delivery_status)

unfoldable pub should_send_telegram : Env → AlertRow → Bool
should_send_telegram env alert =
    nonempty (chats_of env.settings)
    && env.notifier.is_telegram_enabled env.telegram_bot_token
    && is_instant (mode_of env.settings)
    && not (is_channel_sent alert.telegram_delivery_status)

unfoldable pub should_queue_telegram_digest : Env → AlertRow → Bool
should_queue_telegram_digest env alert =
    nonempty (chats_of env.settings)
    && env.notifier.is_telegram_enabled env.telegram_bot_token
    && not (is_instant (mode_of env.settings))
    && not (is_channel_sent alert.telegram_delivery_status)

-- The world with the retryable and the terminal channel errors so far.
pub record Progress : Type 0 where
  pub world : World
  pub channel_errors : List String
  pub terminal_channel_errors : List String

abbrev add_error : String → Progress → Progress
add_error e p = record p { channel_errors = p.channel_errors ++ e ∷ [] }

abbrev pub called : Call → World → World
called c w = record w { calls = w.calls ++ c ∷ [] }

infixr 65 ◌<>◌
abbrev pub ◌<>◌ : String → String → String
s <> t = String.◌++◌ s t

abbrev webhook_result : Env → ℕ → Option String → World → Progress → Progress
webhook_result env id none w p = record p {
  world = on_alerts (mark_channel_delivered env.now id webhook) w;
}
webhook_result env id (some m) w p = add_error ("webhook:" <> m) (record p { world = w })

unfoldable pub attempt_webhook : Env → AlertRow → Progress → Progress
attempt_webhook env alert p =
    if should_attempt_webhook env alert
    then (let url = url_text (notifier_url env) in
        webhook_result env alert.id (env.notifier.send_webhook alert.id url)
          (called (webhook_call url) p.world) p)
    else p

abbrev pub quota_key : Env → AlertRow → Key
quota_key env alert = record { tenant_id = alert.tenant_id; utc_day = env.utc_day }

abbrev email_result : Env → AlertRow → Option String → World → Progress → Progress
email_result env alert none w p = record p {
  world = on_alerts (mark_channel_delivered env.now alert.id email) w;
}
email_result env alert (some m) w p = add_error ("email:" <> m) (record p {
  world = record w {
    redis = release env.redis_fails env.resend_daily_limit (quota_key env alert) w.redis;
  };
})

-- The decision of the quota: an email over it is a terminal failure of the channel.
unfoldable pub send_within_quota : Env → AlertRow → EmailQuotaDecision → World → Progress → Progress
send_within_quota env alert decision w p =
    if not decision.allowed
    then record p {
      world = on_alerts (mark_channel_failed env.now alert.id email) w;
      terminal_channel_errors =
          p.terminal_channel_errors
          ++ ("email:quota_exceeded:daily_limit_" <> env.print_number decision.limit) ∷ [];
    }
    else email_result env alert (env.notifier.send_email alert.id (recipients_of env.settings))
        (called (email_call (recipients_of env.settings)) w) p

unfoldable pub attempt_email : Env → AlertRow → Progress → Progress
attempt_email env alert p =
    if should_attempt_email env alert
    then (let (redis', decision) =
          reserve env.redis_fails env.resend_daily_limit (quota_key env alert) p.world.redis in
        send_within_quota env alert decision (record p.world { redis = redis' }) p)
    else p

abbrev pub chat_result : String → Option String → Progress → Progress
chat_result chat_id none p = p
chat_result chat_id (some m) p = add_error ("telegram:" <> chat_id <> ":" <> m) p

-- The loop over the chats.
unfoldable pub send_chats : Env → AlertRow → List String → Progress → Progress
send_chats env alert [] p = p
send_chats env alert (chat_id ∷ chats) p = send_chats env alert chats (
    chat_result chat_id (env.notifier.send_telegram alert.id chat_id env.telegram_bot_token)
      (record p { world = called (telegram_call chat_id) p.world }))

abbrev pub succeeds : Option String → Bool
succeeds none = true
succeeds (some m) = false

-- `telegramSucceededForAll`.
unfoldable pub all_chats_succeed : Env → AlertRow → List String → Bool
all_chats_succeed env alert [] = true
all_chats_succeed env alert (chat_id ∷ chats) =
    succeeds (env.notifier.send_telegram alert.id chat_id env.telegram_bot_token)
    && all_chats_succeed env alert chats

unfoldable pub attempt_telegram : Env → AlertRow → Progress → Progress
attempt_telegram env alert p =
    if should_send_telegram env alert
    then (let p' = send_chats env alert (chats_of env.settings) p in
        if all_chats_succeed env alert (chats_of env.settings)
        then record p' {
          world = on_alerts (mark_channel_delivered env.now alert.id telegram) p'.world;
        }
        else p')
    else p
