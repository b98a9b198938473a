-- ===== src/Alerts/Monotone.antt =====
-- A delivery never takes back what was delivered, whatever fails in it.
use feedpulse.Base.{
  ◌≡◌, refl, inl, inr, false, List, [], ◌∷◌, String, Bool-cases, Option-cases, arith,
}
use feedpulse.Notifications.Quota.{EmailQuotaDecision}
use feedpulse.Alerts.Row.{AlertRow, webhook, telegram, email}
use feedpulse.Alerts.Marks.{
  find_by_id_for_worker, mark_delivery_disabled, mark_sent, mark_delivery_failure,
  mark_channel_delivered, mark_channel_failed, check_all_channels_delivered,
  mark_delivery_retry_pending,
}
use feedpulse.Alerts.Notifier.{Env}
use feedpulse.Alerts.Delivery.{
  World, Progress, attempt_webhook, attempt_email, attempt_telegram, send_within_quota, send_chats,
  should_attempt_webhook, should_attempt_email, should_send_telegram, all_chats_succeed, chats_of,
  notifier_url, url_text, recipients_of, has_webhook, has_email, has_telegram, nonempty,
}
use feedpulse.Alerts.Process.{
  Input, queue_digest, conclude, attempts, nothing_to_do, process_alert, process_alert_delivery,
  count_sent,
}
use feedpulse.Alerts.Rows.{
  Follows, Follows-refl, Follows-trans, by_id-Follows, disabled_row-Advances, sent_row-Advances,
  failure_row-Advances, retry_row-Advances, delivered_row-Advances, failed_row-Advances,
}

abbrev rows : Progress → List AlertRow
rows p = p.world.alerts

module _ (env : Env) (alert : AlertRow) where
  webhook-Follows : (p : Progress) → Follows (rows p) (rows (attempt_webhook env alert p))
  unfolding attempt_webhook mark_channel_delivered
  webhook-Follows p = elim (Bool-cases (should_attempt_webhook env alert)) [
    | inr e ↦ rw e (Follows-refl (rows p))
    | inl e ↦
        elim (Option-cases (env.notifier.send_webhook alert.id (url_text (notifier_url env)))) [
          | inl s ↦
              rw (e, s)
                (by_id-Follows alert.id _ (rows p) (λ r. delivered_row-Advances env.now r webhook))
          | inr (m, s) ↦ rw (e, s) (Follows-refl (rows p))
        ]
  ]

  quota-Follows :
      (decision : EmailQuotaDecision) (w : World) (p : Progress)
      → Follows w.alerts (rows (send_within_quota env alert decision w p))
  unfolding send_within_quota mark_channel_delivered mark_channel_failed
  quota-Follows decision w p = elim (Bool-cases decision.allowed) [
    | inr e ↦ rw e (by_id-Follows alert.id _ w.alerts (λ r. failed_row-Advances env.now r email))
    | inl e ↦ elim (Option-cases (env.notifier.send_email alert.id (recipients_of env.settings))) [
      | inl s ↦
          rw (e, s)
            (by_id-Follows alert.id _ w.alerts (λ r. delivered_row-Advances env.now r email))
      | inr (m, s) ↦ rw (e, s) (Follows-refl w.alerts)
    ]
  ]

  email-Follows : (p : Progress) → Follows (rows p) (rows (attempt_email env alert p))
  unfolding attempt_email
  email-Follows p = elim (Bool-cases (should_attempt_email env alert)) [
    | inr e ↦ rw e (Follows-refl (rows p))
    | inl e ↦ rw e (quota-Follows _ (record p.world { redis = _ }) p)
  ]

  pub chats-rows :
      (chats : List String) (p : Progress) → rows (send_chats env alert chats p) ≡ rows p
  unfolding send_chats
  chats-rows [] p = refl
  chats-rows (c ∷ chats) p =
      elim (Option-cases (env.notifier.send_telegram alert.id c env.telegram_bot_token)) [
        | inl s ↦ rw s (chats-rows chats _)
        | inr (m, s) ↦ rw s (chats-rows chats _)
      ]

  telegram-Follows : (p : Progress) → Follows (rows p) (rows (attempt_telegram env alert p))
  unfolding attempt_telegram mark_channel_delivered
  telegram-Follows p = elim (Bool-cases (should_send_telegram env alert)) [
    | inr e ↦ rw e (Follows-refl (rows p))
    | inl e ↦ elim (Bool-cases (all_chats_succeed env alert (chats_of env.settings))) [
      | inr s ↦ rw (e, s, chats-rows (chats_of env.settings) p) (Follows-refl (rows p))
      | inl s ↦
          rw (e, s, chats-rows (chats_of env.settings) p)
            (by_id-Follows alert.id _ (rows p) (λ r. delivered_row-Advances env.now r telegram))
    ]
  ]

  pub digest-rows : (p : Progress) → rows (queue_digest env alert p) ≡ rows p
  unfolding queue_digest
  digest-rows p = ground arith

  pub attempts-Follows : (w : World) → Follows w.alerts (rows (attempts env alert w))
  unfolding attempts
  attempts-Follows w =
      let p0 : Progress = record { world = w; channel_errors = []; terminal_channel_errors = [] } in
      let p1 = attempt_webhook env alert p0 in
      let p2 = attempt_email env alert p1 in
      let p3 = attempt_telegram env alert p2 in
      rw (digest-rows p3) (
        Follows-trans (rows p0) (rows p2) (rows p3)
          (Follows-trans (rows p0) (rows p1) (rows p2) (webhook-Follows p0) (email-Follows p1))
          (telegram-Follows p2))

conclude-Follows :
    (env : Env) (input : Input) (p : Progress) → Follows (rows p) (conclude env input p).0.alerts
unfolding conclude mark_delivery_failure mark_delivery_retry_pending count_sent mark_sent
conclude-Follows env input p = elim (Bool-cases (nonempty p.channel_errors)) [
  | inl a ↦ rw a (
      by_id-Follows input.alert_id _ (rows p)
        (λ r. failure_row-Advances env.now r input.attempt_number _ input.will_retry))
  | inr a ↦ elim (Bool-cases (nonempty p.terminal_channel_errors)) [
    | inl b ↦
        rw (a, b)
          (by_id-Follows input.alert_id _ (rows p)
            (λ r. failure_row-Advances env.now r input.attempt_number _ false))
    | inr b ↦
        elim (Bool-cases (
          check_all_channels_delivered input.alert_id (has_webhook env) (has_email env)
            (has_telegram env) (rows p))) [
              | inl c ↦
                  rw (a, b, c)
                    (by_id-Follows input.alert_id _ (rows p)
                      (λ r. sent_row-Advances env.now r input.attempt_number))
              | inr c ↦ elim (Bool-cases input.will_retry) [
                | inl d ↦
                    rw (a, b, c, d)
                      (by_id-Follows input.alert_id _ (rows p)
                        (λ r. retry_row-Advances env.now r input.attempt_number))
                | inr d ↦ rw (a, b, c, d) (Follows-refl (rows p))
              ]
            ]
  ]
]

process_alert-Follows :
    (env : Env) (input : Input) (alert : AlertRow) (w : World)
    → Follows w.alerts (process_alert env input alert w).0.alerts
unfolding process_alert mark_delivery_disabled
process_alert-Follows env input alert w = elim (Bool-cases (nothing_to_do env alert)) [
  | inl e ↦ rw e (by_id-Follows input.alert_id _ w.alerts (λ r. disabled_row-Advances env.now r))
  | inr e ↦ rw e (
      Follows-trans w.alerts (rows (attempts env alert w)) _ (attempts-Follows env alert w)
        (conclude-Follows env input (attempts env alert w)))
]

-- A delivery job, on every path through it, keeps every alert: `sent` and a channel's 'sent' are
-- never taken back, on the alert of the job or on another.
pub process_alert_delivery-Follows :
    (env : Env) (input : Input) (w : World)
    → Follows w.alerts (process_alert_delivery env input w).0.alerts
unfolding process_alert_delivery
process_alert_delivery-Follows env input w =
    elim (Option-cases (find_by_id_for_worker input.alert_id w.alerts)) [
      | inl e ↦ rw e (Follows-refl w.alerts)
      | inr (alert, e) ↦ rw e (process_alert-Follows env input alert w)
    ]
