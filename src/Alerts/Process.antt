-- ===== src/Alerts/Process.antt =====
-- `execute` of `ProcessAlertDeliveryUseCase` and of `DeliverAlertUseCase` (modules/alerts/application):
-- the attempts of Alerts/Delivery in their order, and what is written on the alert afterwards.
use feedpulse.Base.{
  ℕ, ◌+◌, String, Bool, false, not, ◌&&◌, ◌||◌, Option, none, some, List, [], ◌∷◌, ◌++◌,
  if◌then◌else◌, is_some, str_eq, Result, ok, err, not_found, unauthorized, plain_error, find, ◌==◌,
}
use feedpulse.Alerts.Row.{AlertRow}
use feedpulse.Alerts.Marks.{
  find_by_id_for_worker, mark_delivery_queued, mark_delivery_disabled, mark_sent,
  mark_delivery_failure, check_all_channels_delivered, mark_delivery_retry_pending,
}
use feedpulse.Alerts.Notifier.{Env}
use feedpulse.Alerts.DigestQueue.{queue_telegram_digest_items}
use feedpulse.Alerts.Delivery.{
  World, Progress, attempt_webhook, attempt_email, attempt_telegram, should_attempt_webhook,
  should_attempt_email, should_send_telegram, should_queue_telegram_digest, has_webhook, has_email,
  has_telegram, chats_of, nonempty, ◌<>◌,
}

pub record Input : Type 0 where
  pub alert_id : ℕ
  pub attempt_number : ℕ
  pub will_retry : Bool

-- `errors.join('|')`
abbrev pub join : List String → String
join [] = ""
join (e ∷ []) = e
join (e ∷ f ∷ es) = e <> "|" <> join (f ∷ es)

unfoldable pub queue_digest : Env → AlertRow → Progress → Progress
queue_digest env alert p =
    if should_queue_telegram_digest env alert
    then record p {
      world = record p.world {
        digest_items =
            queue_telegram_digest_items env.now alert.id alert.tenant_id (chats_of env.settings)
              p.world.digest_items;
      };
    }
    else p

abbrev on_alerts : (List AlertRow → List AlertRow) → World → World
on_alerts f w = record w { alerts = f w.alerts }

-- `markSent`, and the metric if a row was hit.
unfoldable pub count_sent : Env → Input → World → World
count_sent env input w = record w {
  alerts = mark_sent env.now input.alert_id input.attempt_number w.alerts;
  alerts_sent_metric =
      if is_some (find_by_id_for_worker input.alert_id w.alerts)
      then w.alerts_sent_metric + 1
      else w.alerts_sent_metric;
}

-- What follows the attempts: an error for the queue if a retry can help, the terminal errors on the
-- alert, or the check that all channels are done.
unfoldable pub conclude : Env → Input → Progress → World × Result (Unit {0})
conclude env input p =
    let message =
      "notification_channels_failed:" <> join (p.channel_errors ++ p.terminal_channel_errors) in
    let terminal = "notification_channels_failed:" <> join p.terminal_channel_errors in
    if nonempty p.channel_errors
    then (
      on_alerts
          (mark_delivery_failure env.now input.alert_id input.attempt_number message
            input.will_retry)
          p.world,
      err (plain_error message),
    )
    else if nonempty p.terminal_channel_errors
    then (
      on_alerts (mark_delivery_failure env.now input.alert_id input.attempt_number terminal false)
          p.world,
      ok tt,
    )
    else if check_all_channels_delivered input.alert_id (has_webhook env) (has_email env)
        (has_telegram env) p.world.alerts
    then (count_sent env input p.world, ok tt)
    else if input.will_retry
    then (
      on_alerts (mark_delivery_retry_pending env.now input.alert_id input.attempt_number) p.world,
      ok tt,
    )
    else (p.world, ok tt)

unfoldable pub attempts : Env → AlertRow → World → Progress
attempts env alert w = queue_digest env alert (
    attempt_telegram env alert (
      attempt_email env alert (
        attempt_webhook env alert
          (record { world = w; channel_errors = []; terminal_channel_errors = [] }))))

unfoldable pub nothing_to_do : Env → AlertRow → Bool
nothing_to_do env alert =
    (not (should_attempt_webhook env alert)
      && not (should_attempt_email env alert)
      && not (should_send_telegram env alert)
      && not (should_queue_telegram_digest env alert))
    || not env.notifier.is_enabled

unfoldable pub process_alert : Env → Input → AlertRow → World → World × Result (Unit {0})
process_alert env input alert w =
    if nothing_to_do env alert
    then (on_alerts (mark_delivery_disabled env.now input.alert_id) w, ok tt)
    else conclude env input (attempts env alert w)

abbrev process_found : Env → Input → World → Option AlertRow → World × Result (Unit {0})
process_found env input w none = (w, err (not_found "alert_not_found"))
process_found env input w (some alert) = process_alert env input alert w

-- `ProcessAlertDeliveryUseCase.execute`.
unfoldable pub process_alert_delivery : Env → Input → World → World × Result (Unit {0})
process_alert_delivery env input w =
    process_found env input w (find_by_id_for_worker input.alert_id w.alerts)

pub data Source : Type 0 where
  ingestion manual : Source

pub data DeliverStatus : Type 0 where
  queued already_sent disabled : DeliverStatus

-- The rows and the alert ids of the delivery jobs that were added.
pub record Outbox : Type 0 where
  pub alerts : List AlertRow
  pub jobs : List ℕ

abbrev is_of_tenant : ℕ → String → AlertRow → Bool
is_of_tenant id tenant_id r = (r.id == id) && str_eq r.tenant_id tenant_id

-- The lookup of `DeliverAlertUseCase`: a manual call without a tenant id, or with an empty one, is
-- refused.
unfoldable pub deliver_lookup :
    ℕ → Source → Option String → List AlertRow → Result (Option AlertRow)
deliver_lookup id ingestion tenant_id alerts = ok (find_by_id_for_worker id alerts)
deliver_lookup id manual none alerts = err (unauthorized "missing_tenant_context")
deliver_lookup id manual (some tenant_id) alerts =
    if str_eq tenant_id ""
    then err (unauthorized "missing_tenant_context")
    else ok (find (is_of_tenant id tenant_id) alerts)

unfoldable pub deliver_found :
    ℕ → Bool → ℕ → Result (Option AlertRow) → Outbox → Outbox × Result (ℕ × DeliverStatus)
deliver_found now notifier_enabled id (err e) s = (s, err e)
deliver_found now notifier_enabled id (ok none) s = (s, err (not_found "alert_not_found"))
deliver_found now notifier_enabled id (ok (some alert)) s =
    if alert.sent
    then (s, ok (alert.id, already_sent))
    else if not notifier_enabled
    then (record s { alerts = mark_delivery_disabled now id s.alerts }, ok (alert.id, disabled))
    else (
      record { alerts = mark_delivery_queued now id s.alerts; jobs = s.jobs ++ id ∷ [] },
      ok (alert.id, queued),
    )

-- `DeliverAlertUseCase.execute`.
unfoldable pub deliver_alert :
    ℕ → Bool → ℕ → Source → Option String → Outbox → Outbox × Result (ℕ × DeliverStatus)
deliver_alert now notifier_enabled id source tenant_id s =
    deliver_found now notifier_enabled id (deliver_lookup id source tenant_id s.alerts) s
