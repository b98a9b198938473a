-- ===== src/Alerts/Marks.antt =====
-- The single-row statements of modules/alerts/alerts.repository.ts: what a delivery writes on its
-- alert. Each is an UPDATE ... WHERE id = $1.
use feedpulse.Base.{
  ℕ, max, String, Bool, true, false, not, ◌&&◌, ◌||◌, Option, none, some, List, ltb, ◌==◌,
  if◌then◌else◌, update, find, or_else,
}
use feedpulse.Alerts.Row.{
  AlertRow, DeliveryStatus, ChannelStatus, DeliveryChannel, is_channel_sent, channel_status,
  set_channel_status,
}

unfoldable pub by_id : ℕ → (AlertRow → AlertRow) → List AlertRow → List AlertRow
by_id id f alerts = update (λ r. r.id == id) f alerts

unfoldable pub find_by_id_for_worker : ℕ → List AlertRow → Option AlertRow
find_by_id_for_worker id alerts = find (λ r. r.id == id) alerts

unfoldable pub queued_row : ℕ → AlertRow → AlertRow
queued_row now r = record r {
  delivery_status =
      if ltb 0 r.delivery_attempts then DeliveryStatus.retrying else DeliveryStatus.queued;
  last_delivery_queued_at = some now;
}

unfoldable pub mark_delivery_queued : ℕ → ℕ → List AlertRow → List AlertRow
mark_delivery_queued now id = by_id id (queued_row now)

unfoldable pub disabled_row : ℕ → AlertRow → AlertRow
disabled_row now r = record r {
  delivery_status = DeliveryStatus.disabled;
  last_delivery_error = some "notifier_disabled";
  last_delivery_attempt_at = some now;
}

unfoldable pub mark_delivery_disabled : ℕ → ℕ → List AlertRow → List AlertRow
mark_delivery_disabled now id = by_id id (disabled_row now)

unfoldable pub sent_row : ℕ → ℕ → AlertRow → AlertRow
sent_row now attempt_number r = record r {
  sent = true;
  sent_at = some (or_else r.sent_at now);
  delivery_status = DeliveryStatus.sent;
  delivery_attempts = max r.delivery_attempts attempt_number;
  last_delivery_attempt_at = some now;
  last_delivery_error = none;
}

unfoldable pub mark_sent : ℕ → ℕ → ℕ → List AlertRow → List AlertRow
mark_sent now id attempt_number = by_id id (sent_row now attempt_number)

unfoldable pub failure_row : ℕ → ℕ → String → Bool → AlertRow → AlertRow
failure_row now attempt_number message will_retry r = record r {
  delivery_status = if will_retry then DeliveryStatus.retrying else DeliveryStatus.failed;
  delivery_attempts = max r.delivery_attempts attempt_number;
  last_delivery_attempt_at = some now;
  last_delivery_error = some message;
}

unfoldable pub mark_delivery_failure : ℕ → ℕ → ℕ → String → Bool → List AlertRow → List AlertRow
mark_delivery_failure now id attempt_number message will_retry =
    by_id id (failure_row now attempt_number message will_retry)

unfoldable pub delivered_row : ℕ → DeliveryChannel → AlertRow → AlertRow
delivered_row now channel r = record (set_channel_status channel ChannelStatus.sent r) {
  last_delivery_attempt_at = some now;
}

unfoldable pub mark_channel_delivered : ℕ → ℕ → DeliveryChannel → List AlertRow → List AlertRow
mark_channel_delivered now id channel = by_id id (delivered_row now channel)

-- Only where the column is not 'sent'.
unfoldable pub failed_row : ℕ → DeliveryChannel → AlertRow → AlertRow
failed_row now channel r =
    if is_channel_sent (channel_status channel r)
    then r
    else record (set_channel_status channel ChannelStatus.failed r) {
      last_delivery_attempt_at = some now;
    }

unfoldable pub mark_channel_failed : ℕ → ℕ → DeliveryChannel → List AlertRow → List AlertRow
mark_channel_failed now id channel = by_id id (failed_row now channel)

abbrev pub delivered_in : Bool → Bool → Bool → AlertRow → Bool
delivered_in has_webhook has_email has_telegram r =
    (not has_webhook || is_channel_sent r.webhook_delivery_status)
    && (not has_email || is_channel_sent r.email_delivery_status)
    && (not has_telegram || is_channel_sent r.telegram_delivery_status)

abbrev pub answer_of : Bool → Bool → Bool → Option AlertRow → Bool
answer_of has_webhook has_email has_telegram none = false
answer_of has_webhook has_email has_telegram (some r) =
    delivered_in has_webhook has_email has_telegram r

unfoldable pub check_all_channels_delivered : ℕ → Bool → Bool → Bool → List AlertRow → Bool
check_all_channels_delivered id has_webhook has_email has_telegram alerts =
    answer_of has_webhook has_email has_telegram (find_by_id_for_worker id alerts)

unfoldable pub retry_row : ℕ → ℕ → AlertRow → AlertRow
retry_row now attempt_number r = record r {
  delivery_status = DeliveryStatus.retrying;
  delivery_attempts = max r.delivery_attempts attempt_number;
  last_delivery_attempt_at = some now;
}

unfoldable pub mark_delivery_retry_pending : ℕ → ℕ → ℕ → List AlertRow → List AlertRow
mark_delivery_retry_pending now id attempt_number = by_id id (retry_row now attempt_number)
