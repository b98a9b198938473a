-- ===== src/Alerts/Unsent.antt =====
-- An alert of a tenant that has email recipients while email is not configured.
use feedpulse.Base.{ℕ, ◌≡◌, refl, sym, ap, ◌∙◌, inl, inr, true, false, some, [], Bool-cases, arith}
use mathlib.Core.Option
use mathlib.Core.Option.{some-injective}
use mathlib.Core.Bool.{false≢true}
use feedpulse.Alerts.Row.{AlertRow, ChannelStatus, is_channel_sent}
use feedpulse.Alerts.Marks.{
  find_by_id_for_worker, mark_delivery_failure, mark_sent, mark_delivery_retry_pending,
  mark_delivery_disabled, delivered_row, disabled_row, failure_row, sent_row, retry_row,
  check_all_channels_delivered,
}
use feedpulse.Alerts.Notifier.{Env}
use feedpulse.Alerts.Delivery.{
  World, Progress, attempt_webhook, attempt_email, attempt_telegram, should_attempt_email, nonempty,
  has_webhook, has_email, has_telegram,
}
use feedpulse.Alerts.Process.{
  Input, conclude, attempts, nothing_to_do, process_alert, process_alert_delivery, count_sent,
}
use feedpulse.Alerts.Monotone.{digest-rows}
use feedpulse.Alerts.Columns.{column, column-by_id, webhook-column, telegram-column}
use feedpulse.Alerts.Completion.{is_delivered, sent_means_delivered}

abbrev email_of : AlertRow → ChannelStatus
email_of r = r.email_delivery_status

email-idle :
    (env : Env) (alert : AlertRow)
    → env.notifier.is_email_enabled ≡ false
    → should_attempt_email env alert ≡ false
unfolding should_attempt_email
email-idle env alert off = ground (arith, off)

email-skipped :
    (env : Env) (alert : AlertRow) (p : Progress)
    → env.notifier.is_email_enabled ≡ false
    → attempt_email env alert p ≡ p
unfolding attempt_email
email-skipped env alert p off = rw (email-idle env alert off) refl

module _ (env : Env) (off : env.notifier.is_email_enabled ≡ false) where
  attempts-email :
      (alert : AlertRow) (j : ℕ) (w : World)
      → column email_of j (attempts env alert w).world.alerts ≡ column email_of j w.alerts
  unfolding attempts delivered_row
  attempts-email alert j w =
      let p0 : Progress = record { world = w; channel_errors = []; terminal_channel_errors = [] } in
      let p1 = attempt_webhook env alert p0 in
      let p3 = attempt_telegram env alert (attempt_email env alert p1) in
      rw (digest-rows env alert p3) (
        telegram-column env alert j email_of (attempt_email env alert p1) (λ r. refl)
        ∙ ap (λ p. column email_of j p.world.alerts) (email-skipped env alert p1 off)
        ∙ webhook-column env alert j email_of p0 (λ r. refl))

conclude-email :
    (env : Env) (input : Input) (j : ℕ) (p : Progress)
    → column email_of j (conclude env input p).0.alerts ≡ column email_of j p.world.alerts
unfolding conclude mark_delivery_failure mark_delivery_retry_pending count_sent mark_sent
    failure_row retry_row sent_row
conclude-email env input j p =
    let rows = p.world.alerts in
    elim (Bool-cases (nonempty p.channel_errors)) [
      | inl a ↦ rw a (column-by_id email_of input.alert_id j _ (λ r. refl) (λ r. refl) rows)
      | inr a ↦ elim (Bool-cases (nonempty p.terminal_channel_errors)) [
        | inl b ↦ rw (a, b) (column-by_id email_of input.alert_id j _ (λ r. refl) (λ r. refl) rows)
        | inr b ↦
            elim (Bool-cases (
              check_all_channels_delivered input.alert_id (has_webhook env) (has_email env)
                (has_telegram env) rows)) [
                  | inl c ↦
                      rw (a, b, c)
                        (column-by_id email_of input.alert_id j _ (λ r. refl) (λ r. refl) rows)
                  | inr c ↦ elim (Bool-cases input.will_retry) [
                    | inl d ↦
                        rw (a, b, c, d)
                          (column-by_id email_of input.alert_id j _ (λ r. refl) (λ r. refl) rows)
                    | inr d ↦ rw (a, b, c, d) refl
                  ]
                ]
      ]
    ]

process-email :
    (env : Env) (input : Input) (alert : AlertRow) (w : World)
    → env.notifier.is_email_enabled ≡ false
    → find_by_id_for_worker input.alert_id w.alerts ≡ some alert
    → column email_of input.alert_id (process_alert_delivery env input w).0.alerts
      ≡ column email_of input.alert_id w.alerts
unfolding process_alert_delivery process_alert mark_delivery_disabled disabled_row
process-email env input alert w off found =
    let id = input.alert_id in
    elim (Bool-cases (nothing_to_do env alert)) [
      | inl e ↦
          rw (found, e)
            (column-by_id email_of id id (disabled_row env.now) (λ r. refl) (λ r. refl) w.alerts
              ∙ ap (Option.map email_of) found)
      | inr e ↦
          rw (found, e)
            (conclude-email env input id (attempts env alert w)
              ∙ attempts-email env off alert id w
              ∙ ap (Option.map email_of) found)
    ]

delivered-email :
    (env : Env) (s : AlertRow)
    → has_email env ≡ true
    → is_delivered env s ≡ true
    → is_channel_sent (email_of s) ≡ true
delivered-email env s on done = ground (arith, on, done)

-- Where the sending of email is not enabled, an unsent alert of a tenant with email recipients,
-- whose email column is not yet sent, is never marked as sent by a delivery job, even when the
-- webhook and the chats are delivered.
pub unenabled_email_stays_unsent :
    (env : Env) (input : Input) (alert : AlertRow) (w : World) {s : AlertRow}
    → env.notifier.is_email_enabled ≡ false
    → has_email env ≡ true
    → find_by_id_for_worker input.alert_id w.alerts ≡ some alert
    → alert.sent ≡ false
    → is_channel_sent alert.email_delivery_status ≡ false
    → find_by_id_for_worker input.alert_id (process_alert_delivery env input w).0.alerts ≡ some s
    → s.sent ≡ false
unenabled_email_stays_unsent env input alert w {s} off on found unsent waiting after =
    elim (Bool-cases s.sent) [
      | inr e ↦ e
      | inl e ↦
          let done = sent_means_delivered env input alert w found unsent after e in
          let kept = process-email env input alert w off found in
          let same : email_of s ≡ email_of alert = some-injective _ _ (rw (after, found) at kept) in
          absurd (
            false≢true
              (sym waiting ∙ ap is_channel_sent (sym same) ∙ delivered-email env s on done))
    ]
