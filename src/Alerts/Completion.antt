-- ===== src/Alerts/Completion.antt =====
-- When a delivery job marks its alert as sent.
use feedpulse.Base.{
  ℕ, ◌≡◌, refl, sym, ap, ◌∙◌, subst, inl, inr, Bool, true, false, some, List, Bool-cases, arith, ok,
}
use mathlib.Core.Option.{some-injective}
use feedpulse.Alerts.Row.{AlertRow, ChannelStatus}
use feedpulse.Alerts.Marks.{
  by_id, find_by_id_for_worker, mark_delivery_disabled, mark_delivery_failure, mark_sent,
  mark_delivery_retry_pending, disabled_row, failure_row, sent_row, retry_row,
  check_all_channels_delivered, delivered_in,
}
use feedpulse.Alerts.Notifier.{Env}
use feedpulse.Alerts.Delivery.{
  World, Progress, should_attempt_webhook, should_attempt_email, should_send_telegram,
  should_queue_telegram_digest, nonempty, has_webhook, has_email, has_telegram,
}
use feedpulse.Alerts.Process.{
  Input, conclude, attempts, nothing_to_do, process_alert, process_alert_delivery, count_sent,
}
use feedpulse.Alerts.Rows.{find-by_id}
use feedpulse.Alerts.Monotone.{attempts-Follows}
use feedpulse.Alerts.Columns.{attempts-sent}

-- The row of an unsent alert, after a statement that leaves `sent`, is unsent.
stays_unsent :
    (id : ℕ) (f : AlertRow → AlertRow)
    → ((r : AlertRow) → (f r).id ≡ r.id)
    → (alerts : List AlertRow) {q s : AlertRow} → find_by_id_for_worker id alerts ≡ some q
    → (f q).sent ≡ false
    → find_by_id_for_worker id (by_id id f alerts) ≡ some s
    → s.sent ≡ false
stays_unsent id f keeps alerts {q} {s} before unsent after =
    let same = some-injective _ _ (sym (find-by_id id f keeps alerts before) ∙ after) in
    ap (λ r. r.sent) (sym same) ∙ unsent

clash : {b c : Bool} → b ≡ false → b ≡ true → c ≡ true
clash {b} {c} h k = ground arith

abbrev pub is_delivered : Env → AlertRow → Bool
is_delivered env = delivered_in (has_webhook env) (has_email env) (has_telegram env)

conclude-delivered :
    (env : Env) (input : Input) (p : Progress) {q s : AlertRow}
    → find_by_id_for_worker input.alert_id p.world.alerts ≡ some q
    → q.sent ≡ false
    → find_by_id_for_worker input.alert_id (conclude env input p).0.alerts ≡ some s
    → s.sent ≡ true
    → is_delivered env s ≡ true
unfolding conclude mark_delivery_failure mark_delivery_retry_pending count_sent mark_sent
    check_all_channels_delivered failure_row retry_row sent_row
conclude-delivered env input p {q} {s} found unsent after sent =
    let rows = p.world.alerts in
    let check =
      check_all_channels_delivered input.alert_id (has_webhook env) (has_email env)
        (has_telegram env) rows in
    elim (Bool-cases (nonempty p.channel_errors)) [
      | inl a ↦
          clash (stays_unsent input.alert_id _ (λ r. refl) rows found unsent (rw a at after)) sent
      | inr a ↦ elim (Bool-cases (nonempty p.terminal_channel_errors)) [
        | inl b ↦
            clash (stays_unsent input.alert_id _ (λ r. refl) rows found unsent (rw (a, b) at after))
              sent
        | inr b ↦ elim (Bool-cases check) [
          | inl c ↦
              let there =
                find-by_id input.alert_id (sent_row env.now input.attempt_number) (λ r. refl) rows
                  found in
              let same = some-injective _ _ (sym there ∙ (rw (a, b, c) at after)) in
              subst (λ r. is_delivered env r ≡ true) same (rw found at c)
          | inr c ↦ elim (Bool-cases input.will_retry) [
            | inl d ↦
                clash
                  (stays_unsent input.alert_id _ (λ r. refl) rows found unsent
                    (rw (a, b, c, d) at after))
                  sent
            | inr d ↦
                let same = some-injective _ _ (sym found ∙ (rw (a, b, c, d) at after)) in
                clash (ap (λ r. r.sent) (sym same) ∙ unsent) sent
          ]
        ]
      ]
    ]

nothing-delivered :
    (env : Env) (alert : AlertRow)
    → alert.webhook_delivery_status ≡ ChannelStatus.sent
    → alert.email_delivery_status ≡ ChannelStatus.sent
    → alert.telegram_delivery_status ≡ ChannelStatus.sent
    → nothing_to_do env alert ≡ true
unfolding nothing_to_do should_attempt_webhook should_attempt_email should_send_telegram
    should_queue_telegram_digest
nothing-delivered env alert a b c = rw (a, b, c) (ground arith)

module _ (env : Env) (input : Input) (alert : AlertRow) (w : World) where
  unsent-attempts :
      find_by_id_for_worker input.alert_id w.alerts ≡ some alert
      → alert.sent ≡ false
      → (q : AlertRow) × (find_by_id_for_worker input.alert_id (attempts env alert w).world.alerts
          ≡ some q)
        × (q.sent ≡ false)
  unsent-attempts found unsent =
      let (q, there, v) = attempts-Follows env alert w input.alert_id alert found in
      let same = attempts-sent env alert input.alert_id w in
      let flag = some-injective _ _ (rw (there, found) at same) in (q, there, flag ∙ unsent)

  -- An unsent alert that a delivery job leaves as sent has every channel that the tenant configured
  -- delivered: the webhook url, the email recipients, and the chats in the instant mode.
  pub sent_means_delivered :
      {s : AlertRow}
      → find_by_id_for_worker input.alert_id w.alerts ≡ some alert
      → alert.sent ≡ false
      → find_by_id_for_worker input.alert_id (process_alert_delivery env input w).0.alerts ≡ some s
      → s.sent ≡ true
      → is_delivered env s ≡ true
  unfolding process_alert_delivery process_alert mark_delivery_disabled disabled_row
  sent_means_delivered found unsent after sent = elim (Bool-cases (nothing_to_do env alert)) [
    | inl e ↦
        clash
          (stays_unsent input.alert_id _ (λ r. refl) w.alerts found unsent (rw (found, e) at after))
          sent
    | inr e ↦
        let (q, there, u) = unsent-attempts found unsent in
        conclude-delivered env input (attempts env alert w) there u (rw (found, e) at after) sent
  ]

  -- An alert whose three channels are all delivered but which is not yet marked as sent, as a crash
  -- between the last send and `markSent` leaves it: the job that is run again marks it as disabled,
  -- with the error "notifier_disabled", and never as sent; the job itself succeeds.
  pub delivered_alert_is_marked_disabled :
      find_by_id_for_worker input.alert_id w.alerts ≡ some alert
      → alert.webhook_delivery_status ≡ ChannelStatus.sent
      → alert.email_delivery_status ≡ ChannelStatus.sent
      → alert.telegram_delivery_status ≡ ChannelStatus.sent
      → (find_by_id_for_worker input.alert_id (process_alert_delivery env input w).0.alerts
          ≡ some (disabled_row env.now alert))
        × ((process_alert_delivery env input w).1 ≡ ok tt)
  unfolding process_alert_delivery process_alert mark_delivery_disabled disabled_row
  delivered_alert_is_marked_disabled found a b c =
      let idle = nothing-delivered env alert a b c in
      (
        rw (found, idle) (find-by_id input.alert_id _ (λ r. refl) w.alerts found),
        rw (found, idle) refl,
      )
