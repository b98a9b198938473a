-- ===== src/Alerts/Tests.antt =====
-- Runs of a delivery job, and an application of each theorem on them.
use feedpulse.Base.{
  ℕ, ◌≡◌, refl, true, false, Option, none, some, String, List, [], ◌∷◌, ok, find, update,
}
use feedpulse.Alerts.Row.{AlertRow, ChannelStatus, DeliveryStatus, webhook}
use feedpulse.Notifications.Counter.{incr, decr, expire, set_counter, same_key}
use feedpulse.Notifications.Quota.{reserve, release, settle, give_back}
use feedpulse.Alerts.Marks.{
  find_by_id_for_worker, by_id, check_all_channels_delivered, mark_channel_delivered,
  mark_channel_failed, mark_delivery_disabled, mark_delivery_failure, mark_delivery_retry_pending,
  mark_sent, delivered_row, failed_row, failure_row, retry_row, sent_row, disabled_row,
}
use feedpulse.Alerts.Notifier.{Env, TenantSettings, instant}
use feedpulse.Alerts.Delivery.{
  World, email_call, telegram_call, should_attempt_webhook, should_attempt_email,
  should_send_telegram, should_queue_telegram_digest, has_webhook, has_email, has_telegram,
  notifier_url, attempt_webhook, attempt_email, attempt_telegram, all_chats_succeed, send_chats,
  send_within_quota,
}
use feedpulse.Alerts.Process.{
  Input, process_alert_delivery, process_alert, nothing_to_do, conclude, attempts, queue_digest,
  count_sent,
}
use feedpulse.Alerts.Rows.{Follows}
use feedpulse.Alerts.Monotone.{process_alert_delivery-Follows}
use feedpulse.Alerts.Unsent.{unenabled_email_stays_unsent}
use feedpulse.Alerts.Calls.{Spares, no_resend}
use feedpulse.Alerts.Outcome.{is_err, a_send_fails, fails_when_a_send_fails}
use feedpulse.Alerts.Completion.{
  is_delivered, sent_means_delivered, delivered_alert_is_marked_disabled,
}

delivery_operations : Unit {0}
unfolding process_alert_delivery process_alert nothing_to_do conclude attempts queue_digest
    count_sent should_attempt_webhook should_attempt_email should_send_telegram
    should_queue_telegram_digest has_webhook has_email has_telegram notifier_url attempt_webhook
    attempt_email attempt_telegram all_chats_succeed send_chats send_within_quota
    check_all_channels_delivered mark_channel_delivered mark_channel_failed mark_delivery_disabled
    mark_delivery_failure mark_delivery_retry_pending mark_sent delivered_row failed_row failure_row
    retry_row sent_row disabled_row by_id find update find_by_id_for_worker reserve release settle
    incr decr expire set_counter same_key give_back
delivery_operations = tt

abbrev pub an_alert : ℕ → ChannelStatus → ChannelStatus → ChannelStatus → AlertRow
an_alert id on_webhook on_telegram on_email = record {
  id = id;
  tenant_id = "acme";
  entry_id = 10;
  rule_id = 20;
  matched_rules = 20 ∷ [];
  canonical_link = none;
  sent = false;
  sent_at = none;
  delivery_status = DeliveryStatus.queued;
  delivery_attempts = 0;
  last_delivery_attempt_at = none;
  last_delivery_error = none;
  last_delivery_queued_at = none;
  created_at = 0;
  webhook_delivery_status = on_webhook;
  telegram_delivery_status = on_telegram;
  email_delivery_status = on_email;
}

-- The webhook is delivered, the others wait.
abbrev pub waiting : AlertRow
waiting = an_alert 1 ChannelStatus.sent ChannelStatus.pending ChannelStatus.pending

abbrev finished : AlertRow
finished = an_alert 2 ChannelStatus.sent ChannelStatus.sent ChannelStatus.sent

abbrev pub world : World
world = record {
  alerts = waiting ∷ finished ∷ [];
  digest_items = [];
  redis = λ k. none;
  calls = [];
  alerts_sent_metric = 0;
}

abbrev settings : TenantSettings
settings = record {
  webhook_notifier_url = some "https://hook.example.org";
  recipient_emails = "ann@example.org" ∷ [];
  telegram_chat_ids = "7" ∷ [];
  telegram_delivery_mode = instant;
}

-- The chat answers or refuses.
abbrev pub env : Option String → Env
env chat_answer = record {
  now = 5000;
  utc_day = 0;
  settings = some settings;
  telegram_bot_token = some "token";
  webhook_notifier_url = none;
  resend_daily_limit = 100;
  notifier = record {
    is_enabled = true;
    is_email_enabled = true;
    is_telegram_enabled = λ token. true;
    send_webhook = λ id url. none;
    send_email = λ id recipients. none;
    send_telegram = λ id chat token. chat_answer;
  };
  redis_fails = λ c. false;
  print_number = λ n. "100";
}

abbrev job : ℕ → Input
job id = record { alert_id = id; attempt_number = 1; will_retry = true }

pub waiting-found : find_by_id_for_worker 1 world.alerts ≡ some waiting
unfolding find_by_id_for_worker find
waiting-found = refl

finished-found : find_by_id_for_worker 2 world.alerts ≡ some finished
unfolding find_by_id_for_worker find
finished-found = refl

waiting-busy : nothing_to_do (env (some "down")) waiting ≡ false
unfolding delivery_operations
waiting-busy = refl

process_alert_delivery-Follows_example :
    Follows world.alerts (process_alert_delivery (env none) (job 1) world).0.alerts
process_alert_delivery-Follows_example = process_alert_delivery-Follows (env none) (job 1) world

no_resend_example :
    Spares webhook world.calls (process_alert_delivery (env none) (job 1) world).0.calls
no_resend_example = no_resend webhook (env none) (job 1) waiting world waiting-found refl

fails_when_a_send_fails_example :
    is_err (process_alert_delivery (env (some "down")) (job 1) world).1
    ≡ a_send_fails (env (some "down")) waiting world.redis
fails_when_a_send_fails_example =
    fails_when_a_send_fails (env (some "down")) (job 1) waiting world waiting-found waiting-busy

abbrev after : List AlertRow
after = (process_alert_delivery (env none) (job 1) world).0.alerts

abbrev delivered : AlertRow
delivered = record (an_alert 1 ChannelStatus.sent ChannelStatus.sent ChannelStatus.sent) {
  sent = true;
  sent_at = some 5000;
  delivery_status = DeliveryStatus.sent;
  delivery_attempts = 1;
  last_delivery_attempt_at = some 5000;
}

delivered-found : find_by_id_for_worker 1 after ≡ some delivered
unfolding delivery_operations
delivered-found = refl

sent_means_delivered_example : is_delivered (env none) delivered ≡ true
sent_means_delivered_example =
    sent_means_delivered (env none) (job 1) waiting world waiting-found refl delivered-found refl

delivered_alert_is_marked_disabled_example :
    (find_by_id_for_worker 2 (process_alert_delivery (env none) (job 2) world).0.alerts
      ≡ some (disabled_row 5000 finished))
    × ((process_alert_delivery (env none) (job 2) world).1 ≡ ok tt)
delivered_alert_is_marked_disabled_example =
    delivered_alert_is_marked_disabled (env none) (job 2) finished world finished-found refl refl
      refl

-- The email goes first, and the webhook is not called again.
calls_test :
    (process_alert_delivery (env none) (job 1) world).0.calls
    ≡ email_call ("ann@example.org" ∷ []) ∷ telegram_call "7" ∷ []
unfolding delivery_operations
calls_test = refl

missing_alert : is_err (process_alert_delivery (env none) (job 3) world).1 ≡ true
unfolding delivery_operations
missing_alert = refl

-- Email is not configured, and the tenant has a recipient: the alert keeps retrying.
abbrev no_email_env : Env
no_email_env = record (env none) {
  notifier = record (env none).notifier { is_email_enabled = false };
}

abbrev retrying_alert : AlertRow
retrying_alert = record (an_alert 1 ChannelStatus.sent ChannelStatus.sent ChannelStatus.pending) {
  delivery_status = DeliveryStatus.retrying;
  delivery_attempts = 1;
  last_delivery_attempt_at = some 5000;
}

retrying-found :
    find_by_id_for_worker 1 (process_alert_delivery no_email_env (job 1) world).0.alerts
    ≡ some retrying_alert
unfolding delivery_operations
retrying-found = refl

recipients : has_email no_email_env ≡ true
unfolding has_email
recipients = refl

unenabled_email_stays_unsent_example : retrying_alert.sent ≡ false
unenabled_email_stays_unsent_example =
    unenabled_email_stays_unsent no_email_env (job 1) waiting world refl recipients waiting-found
      refl refl retrying-found
