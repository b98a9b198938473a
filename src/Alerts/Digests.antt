-- ===== src/Alerts/Digests.antt =====
-- The sweep of the Telegram digests: the digest statements of modules/alerts/alerts.repository.ts and
-- modules/alerts/application/process-telegram-digests.use-case.ts. An item's alert and the alert's
-- entry exist by their foreign keys; the join with `alerts` is written out.
use feedpulse.Base.{
  ℕ, ◌+◌, min, String, Bool, not, ◌&&◌, ◌||◌, Option, none, some, List, [], ◌∷◌, ltb, leb, ◌==◌,
  str_eq, if◌then◌else◌, any, select, update, sort_by, take, map, length, is_some, is_none,
}
use feedpulse.Alerts.Row.{AlertRow, DigestItem, telegram, is_channel_sent, is_channel_pending}
use feedpulse.Alerts.Marks.{find_by_id_for_worker, delivered_row}

pub record DigestTables : Type 0 where
  pub alerts : List AlertRow
  pub items : List DigestItem

unfoldable pub is_due : ℕ → DigestItem → Bool
is_due now item = is_none item.sent_at && leb item.scheduled_for now

pub record PendingGroup : Type 0 where
  pub tenant_id : String
  pub chat_id : String
  pub first_scheduled_for : ℕ

abbrev in_group : String → String → PendingGroup → Bool
in_group tenant_id chat_id g = str_eq g.tenant_id tenant_id && str_eq g.chat_id chat_id

-- GROUP BY tenant_id, chat_id, with MIN(scheduled_for).
unfoldable pub add_to_group : DigestItem → List PendingGroup → List PendingGroup
add_to_group item [] =
    record {
      tenant_id = item.tenant_id;
      chat_id = item.chat_id;
      first_scheduled_for = item.scheduled_for;
    }
    ∷ []
add_to_group item (g ∷ groups) =
    let rest = add_to_group item groups in
    if in_group item.tenant_id item.chat_id g
    then record g { first_scheduled_for = min g.first_scheduled_for item.scheduled_for } ∷ groups
    else g ∷ rest

unfoldable pub group_all : List DigestItem → List PendingGroup
group_all [] = []
group_all (item ∷ items) = add_to_group item (group_all items)

pub record TelegramDigestGroup : Type 0 where
  pub tenant_id : String
  pub chat_id : String
  pub items : List DigestItem

abbrev comes_before : DigestItem → DigestItem → Bool
comes_before i j =
    ltb i.created_at j.created_at || ((i.created_at == j.created_at) && leb i.id j.id)

-- The second query: the due items of a group with their alerts.
unfoldable pub group_items : ℕ → PendingGroup → DigestTables → List DigestItem
group_items now g s = sort_by comes_before (
    select
      (λ i.
        str_eq i.tenant_id g.tenant_id
        && str_eq i.chat_id g.chat_id
        && is_due now i
        && is_some (find_by_id_for_worker i.alert_id s.alerts))
      s.items)

unfoldable pub with_items : ℕ → DigestTables → List PendingGroup → List TelegramDigestGroup
with_items now s [] = []
with_items now s (g ∷ groups) =
    let rest = with_items now s groups in
    let items = group_items now g s in
    if length items == 0
    then rest
    else record { tenant_id = g.tenant_id; chat_id = g.chat_id; items = items } ∷ rest

unfoldable pub list_due_telegram_digest_groups : ℕ → ℕ → DigestTables → List TelegramDigestGroup
list_due_telegram_digest_groups now max_groups s = with_items now s (
    take max_groups (
      sort_by (λ g h. leb g.first_scheduled_for h.first_scheduled_for)
        (group_all (select (is_due now) s.items))))

unfoldable pub mark_item_sent : ℕ → ℕ → List DigestItem → List DigestItem
mark_item_sent now id items =
    update (λ i. (i.id == id) && is_none i.sent_at) (λ i. record i { sent_at = some now }) items

-- The first loop of `markTelegramDigestGroupSent`.
unfoldable pub mark_items_sent : ℕ → List DigestItem → List DigestItem → List DigestItem
mark_items_sent now [] items = items
mark_items_sent now (i ∷ is) items = mark_items_sent now is (mark_item_sent now i.id items)

-- The two subqueries over the items of an alert.
unfoldable pub has_unsent : ℕ → List DigestItem → Bool
has_unsent alert_id items = any (λ i. (i.alert_id == alert_id) && is_none i.sent_at) items

unfoldable pub has_sent : ℕ → List DigestItem → Bool
has_sent alert_id items = any (λ i. (i.alert_id == alert_id) && is_some i.sent_at) items

unfoldable pub can_converge : List DigestItem → ℕ → AlertRow → Bool
can_converge items id r =
    (r.id == id) && not (is_channel_sent r.telegram_delivery_status) && not (has_unsent r.id items)

unfoldable pub converge_alert : ℕ → List DigestItem → ℕ → List AlertRow → List AlertRow
converge_alert now items id alerts =
    update (can_converge items id) (delivered_row now telegram) alerts

-- The second loop: the alerts after it, and how many it converged.
unfoldable pub converge_alerts : ℕ → List DigestItem → List ℕ → List AlertRow → List AlertRow × ℕ
converge_alerts now items [] alerts = (alerts, 0)
converge_alerts now items (id ∷ ids) alerts =
    let (alerts', n) = converge_alerts now items ids (converge_alert now items id alerts) in
    (alerts', if any (can_converge items id) alerts then n + 1 else n)

-- `new Set(...)`.
unfoldable pub distinct : List ℕ → List ℕ
distinct [] = []
distinct (id ∷ ids) = id ∷ select (λ j. not (j == id)) (distinct ids)

unfoldable pub mark_telegram_digest_group_sent :
    ℕ → List DigestItem → DigestTables → DigestTables × ℕ
mark_telegram_digest_group_sent now [] s = (s, 0)
mark_telegram_digest_group_sent now (i ∷ is) s =
    let items = mark_items_sent now (i ∷ is) s.items in
    let ids = distinct (map (λ j. j.alert_id) (i ∷ is)) in
    let (alerts, n) = converge_alerts now items ids s.alerts in
    (record { alerts = alerts; items = items }, n)

-- The WHERE of the reconciliation.
unfoldable pub is_stale : List DigestItem → AlertRow → Bool
is_stale items r =
    is_channel_pending r.telegram_delivery_status
    && has_sent r.id items
    && not (has_unsent r.id items)

unfoldable pub reconcile_telegram_digest_delivery_status : ℕ → DigestTables → DigestTables × ℕ
reconcile_telegram_digest_delivery_status now s = (
  record s { alerts = update (is_stale s.items) (delivered_row now telegram) s.alerts },
  length (select (is_stale s.items) s.alerts),
)

-- What surrounds one sweep: the notifier, per tenant and chat, and whether the reconciliation throws.
pub record SweepEnv : Type 0 where
  pub now : ℕ
  pub max_groups : ℕ
  pub is_enabled : Bool
  pub is_telegram_enabled : String → Bool
  pub send_telegram_digest : TelegramDigestGroup → Option String
  pub reconcile_fails : Bool

pub record Sweep : Type 0 where
  pub tables : DigestTables
  pub processed_groups : ℕ
  pub sent_items : ℕ
  pub alerts_marked_delivered : ℕ

abbrev flushed : SweepEnv → TelegramDigestGroup → Option String → Sweep → Sweep
flushed env group (some message) r = r
flushed env group none r =
    let (tables, n) = mark_telegram_digest_group_sent env.now group.items r.tables in
    record {
      tables = tables;
      processed_groups = r.processed_groups + 1;
      sent_items = r.sent_items + length group.items;
      alerts_marked_delivered = r.alerts_marked_delivered + n;
    }

unfoldable pub flush_group : SweepEnv → TelegramDigestGroup → Sweep → Sweep
flush_group env group r =
    if (length group.items == 0) || not (env.is_telegram_enabled group.tenant_id)
    then r
    else flushed env group (env.send_telegram_digest group) r

unfoldable pub flush_groups : SweepEnv → List TelegramDigestGroup → Sweep → Sweep
flush_groups env [] r = r
flush_groups env (group ∷ groups) r = flush_groups env groups (flush_group env group r)

unfoldable pub reconcile_previous_sweeps : SweepEnv → DigestTables → DigestTables × ℕ
reconcile_previous_sweeps env s =
    if env.reconcile_fails then (s, 0) else reconcile_telegram_digest_delivery_status env.now s

-- `ProcessTelegramDigestsUseCase.execute`.
unfoldable pub process_telegram_digests : SweepEnv → DigestTables → Sweep
process_telegram_digests env s =
    let (s', n) = reconcile_previous_sweeps env s in
    if not env.is_enabled
    then record { tables = s; processed_groups = 0; sent_items = 0; alerts_marked_delivered = 0 }
    else flush_groups env (list_due_telegram_digest_groups env.now env.max_groups s')
        (record { tables = s'; processed_groups = 0; sent_items = 0; alerts_marked_delivered = n })
