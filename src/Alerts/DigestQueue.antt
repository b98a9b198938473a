-- ===== src/Alerts/DigestQueue.antt =====
-- `queueTelegramDigestItems` and `computeNextDigestWindow` of modules/alerts/alerts.repository.ts.
use feedpulse.Base.{
  ℕ, ◌+◌, ◌*◌, ◌/◌, ◌-◌, String, Bool, ◌&&◌, none, List, [], ◌∷◌, ◌++◌, ◌==◌, str_eq, if◌then◌else◌,
  any, length,
}
use feedpulse.Alerts.Row.{DigestItem}

abbrev pub digest_window_ms : ℕ
digest_window_ms = 10 * 60 * 1000

-- `Math.ceil(now / window) * window`.
unfoldable pub compute_next_digest_window : ℕ → ℕ
compute_next_digest_window now = (now + digest_window_ms - 1) / digest_window_ms * digest_window_ms

-- The unique constraint over (alert_id, chat_id).
abbrev pub is_item_of : ℕ → String → DigestItem → Bool
is_item_of alert_id chat_id item = (item.alert_id == alert_id) && str_eq item.chat_id chat_id

-- INSERT ... ON CONFLICT (alert_id, chat_id) DO NOTHING, at the id that the sequence gives.
unfoldable pub insert_item : ℕ → ℕ → String → String → List DigestItem → List DigestItem
insert_item now alert_id tenant_id chat_id items =
    if any (is_item_of alert_id chat_id) items
    then items
    else items
      ++ record {
        id = length items;
        tenant_id = tenant_id;
        alert_id = alert_id;
        chat_id = chat_id;
        scheduled_for = compute_next_digest_window now;
        sent_at = none;
        created_at = now;
      }
        ∷ []

unfoldable pub queue_telegram_digest_items :
    ℕ → ℕ → String → List String → List DigestItem → List DigestItem
queue_telegram_digest_items now alert_id tenant_id [] items = items
queue_telegram_digest_items now alert_id tenant_id (chat_id ∷ chats) items =
    queue_telegram_digest_items now alert_id tenant_id chats
      (insert_item now alert_id tenant_id chat_id items)
