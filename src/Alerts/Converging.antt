-- ===== src/Alerts/Converging.antt =====
-- What a sweep of the digests marks as delivered.
use feedpulse.Base.{
  ℕ, ◌≡◌, refl, inl, inr, ◌⊎◌, Bool, true, false, not, ◌||◌, List, [], ◌∷◌, Memᴰ, All, All-of_mem,
  All-imp, All-update, Bool-cases, Option-cases, arith, any, update, length, if◌then◌else◌, ◌==◌,
  map,
}
use feedpulse.Alerts.Row.{AlertRow, DigestItem, ChannelStatus}
use feedpulse.Alerts.Marks.{delivered_row}
use feedpulse.Alerts.Digests.{
  DigestTables, mark_item_sent, mark_items_sent, has_unsent, can_converge, converge_alert,
  converge_alerts, distinct, mark_telegram_digest_group_sent, is_stale,
  reconcile_telegram_digest_delivery_status, SweepEnv, Sweep, flush_group, flush_groups,
  reconcile_previous_sweeps, process_telegram_digests, TelegramDigestGroup,
  list_due_telegram_digest_groups,
}

-- An item that is sent stays so.
has_unsent-mark_item_sent :
    (now id alert_id : ℕ) (items : List DigestItem)
    → has_unsent alert_id items ≡ false
    → has_unsent alert_id (mark_item_sent now id items) ≡ false
unfolding has_unsent mark_item_sent any update
has_unsent-mark_item_sent now id alert_id [] h = h
has_unsent-mark_item_sent now id alert_id (i ∷ is) h =
    ground (arith, has_unsent-mark_item_sent now id alert_id is)

has_unsent-mark_items_sent :
    (now alert_id : ℕ) (marked items : List DigestItem)
    → has_unsent alert_id items ≡ false
    → has_unsent alert_id (mark_items_sent now marked items) ≡ false
unfolding mark_items_sent
has_unsent-mark_items_sent now alert_id [] items h = h
has_unsent-mark_items_sent now alert_id (i ∷ marked) items h =
    has_unsent-mark_items_sent now alert_id marked _
      (has_unsent-mark_item_sent now i.id alert_id items h)

stale-settled :
    (items : List DigestItem) (r : AlertRow)
    → is_stale items r ≡ true
    → has_unsent r.id items ≡ false
unfolding is_stale
stale-settled items r h = ground arith

converge-settled :
    (items : List DigestItem) (id : ℕ) (r : AlertRow)
    → can_converge items id r ≡ true
    → has_unsent r.id items ≡ false
unfolding can_converge
converge-settled items id r h = ground arith

module _ (before : List AlertRow) where
  -- A delivered alert was delivered before, or none of its items is left unsent.
  abbrev pub IsEarned : List DigestItem → AlertRow → Type 0
  IsEarned items r =
      r.telegram_delivery_status ≡ ChannelStatus.sent
      → ((q : AlertRow) × Memᴰ q before
          × (q.id ≡ r.id)
          × (q.telegram_delivery_status ≡ ChannelStatus.sent))
        ⊎ (has_unsent r.id items ≡ false)

  abbrev AllEarned : DigestTables → Type 0
  AllEarned s = All (IsEarned s.items) s.alerts

  reconcile-AllEarned :
      (now : ℕ) (s : DigestTables)
      → AllEarned s
      → AllEarned (reconcile_telegram_digest_delivery_status now s).0
  unfolding reconcile_telegram_digest_delivery_status delivered_row
  reconcile-AllEarned now s h =
      All-update _ _ _ s.alerts h (λ r earned stale sent. inr (stale-settled s.items r stale))

  converge_alert-Earned :
      (now id : ℕ) (items : List DigestItem) (alerts : List AlertRow)
      → All (IsEarned items) alerts
      → All (IsEarned items) (converge_alert now items id alerts)
  unfolding converge_alert delivered_row
  converge_alert-Earned now id items alerts h =
      All-update _ _ _ alerts h (λ r earned fit sent. inr (converge-settled items id r fit))

  converge_alerts-Earned :
      (now : ℕ) (items : List DigestItem) (ids : List ℕ) (alerts : List AlertRow)
      → All (IsEarned items) alerts
      → All (IsEarned items) (converge_alerts now items ids alerts).0
  unfolding converge_alerts
  converge_alerts-Earned now items [] alerts h = h
  converge_alerts-Earned now items (id ∷ ids) alerts h =
      converge_alerts-Earned now items ids _ (converge_alert-Earned now id items alerts h)

  -- Items that are sent later leave what was earned.
  IsEarned-mark_items_sent :
      (now : ℕ) (marked items : List DigestItem) (r : AlertRow)
      → IsEarned items r
      → IsEarned (mark_items_sent now marked items) r
  IsEarned-mark_items_sent now marked items r earned sent = elim (earned sent) [
    | inl q ↦ inl q
    | inr h ↦ inr (has_unsent-mark_items_sent now r.id marked items h)
  ]

  mark_group-AllEarned :
      (now : ℕ) (marked : List DigestItem) (s : DigestTables)
      → AllEarned s
      → AllEarned (mark_telegram_digest_group_sent now marked s).0
  unfolding mark_telegram_digest_group_sent
  mark_group-AllEarned now [] s h = h
  mark_group-AllEarned now (i ∷ is) s h =
      converge_alerts-Earned now _ (distinct (map (λ j. j.alert_id) (i ∷ is))) s.alerts (
        All-imp (IsEarned s.items) _ (λ r. IsEarned-mark_items_sent now (i ∷ is) s.items r) s.alerts
          h)

  flush_group-AllEarned :
      (env : SweepEnv) (group : TelegramDigestGroup) (r : Sweep)
      → AllEarned r.tables
      → AllEarned (flush_group env group r).tables
  unfolding flush_group
  flush_group-AllEarned env group r h =
      elim (Bool-cases
        ((length group.items == 0) || not (env.is_telegram_enabled group.tenant_id))) [
          | inl e ↦ rw e h
          | inr e ↦ elim (Option-cases (env.send_telegram_digest group)) [
            | inl n ↦ rw (e, n) (mark_group-AllEarned env.now group.items r.tables h)
            | inr (m, n) ↦ rw (e, n) h
          ]
        ]

  flush_groups-AllEarned :
      (env : SweepEnv) (groups : List TelegramDigestGroup) (r : Sweep)
      → AllEarned r.tables
      → AllEarned (flush_groups env groups r).tables
  unfolding flush_groups
  flush_groups-AllEarned env [] r h = h
  flush_groups-AllEarned env (group ∷ groups) r h =
      flush_groups-AllEarned env groups _ (flush_group-AllEarned env group r h)

  reconcile_previous-AllEarned :
      (env : SweepEnv) (s : DigestTables)
      → AllEarned s
      → AllEarned (reconcile_previous_sweeps env s).0
  unfolding reconcile_previous_sweeps
  reconcile_previous-AllEarned env s h = elim (Bool-cases env.reconcile_fails) [
    | inl e ↦ rw e h
    | inr e ↦ rw e (reconcile-AllEarned env.now s h)
  ]

-- A sweep marks the Telegram channel of an alert as delivered only if none of the alert's digest items
-- is left unsent: after it, each delivered alert was delivered before it, or has no unsent item,
-- whichever sends fail, and also if the repair pass throws.
pub sweep_marks_only_flushed :
    (env : SweepEnv) (s : DigestTables)
    → All
        (IsEarned s.alerts (process_telegram_digests env s).tables.items)
        (process_telegram_digests env s).tables.alerts
unfolding process_telegram_digests
sweep_marks_only_flushed env s =
    let start =
      All-of_mem (IsEarned s.alerts s.items) s.alerts (λ r m sent. inl (r, m, refl, sent)) in
    either (not env.is_enabled) _ _ start (
      flush_groups-AllEarned s.alerts env
        (list_due_telegram_digest_groups env.now env.max_groups (reconcile_previous_sweeps env s).0)
        (record {
          tables = (reconcile_previous_sweeps env s).0;
          processed_groups = 0;
          sent_items = 0;
          alerts_marked_delivered = (reconcile_previous_sweeps env s).1;
        })
        (reconcile_previous-AllEarned s.alerts env s start))
  where
    either :
        (b : Bool) (x y : Sweep)
        → AllEarned s.alerts x.tables
        → AllEarned s.alerts y.tables
        → AllEarned s.alerts (if b then x else y).tables
    either true x y h k = h
    either false x y h k = k
