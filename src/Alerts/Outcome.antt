-- ===== src/Alerts/Outcome.antt =====
-- When a delivery job fails, so that the queue retries it.
use feedpulse.Base.{
  ◌≡◌, refl, ap, ◌∙◌, inl, inr, Bool, true, false, not, ◌&&◌, ◌||◌, Option, none, some, List, [],
  ◌∷◌, ◌++◌, String, Bool-cases, Option-cases, arith, Result, ok, err,
}
use feedpulse.Notifications.Counter.{Redis}
use feedpulse.Notifications.Quota.{EmailQuotaDecision, reserve}
use feedpulse.Alerts.Row.{AlertRow}
use feedpulse.Alerts.Marks.{find_by_id_for_worker}
use feedpulse.Alerts.Notifier.{Env}
use feedpulse.Alerts.Delivery.{
  World, Progress, attempt_webhook, attempt_email, attempt_telegram, send_within_quota, send_chats,
  should_attempt_webhook, should_attempt_email, should_send_telegram, all_chats_succeed, chats_of,
  notifier_url, url_text, recipients_of, nonempty, quota_key, succeeds, chat_result, called,
  telegram_call,
}
use feedpulse.Alerts.Process.{
  Input, queue_digest, conclude, attempts, nothing_to_do, process_alert, process_alert_delivery,
}

abbrev pub is_err {ℓ} : {A : Type ℓ} → Result A → Bool
is_err (ok a) = false
is_err (err e) = true

abbrev quota_allows : Env → AlertRow → Redis → Bool
quota_allows env alert redis =
    (reserve env.redis_fails env.resend_daily_limit (quota_key env alert) redis).1.allowed

abbrev webhook_fails : Env → AlertRow → Bool
webhook_fails env alert =
    should_attempt_webhook env alert
    && not (succeeds (env.notifier.send_webhook alert.id (url_text (notifier_url env))))

abbrev email_fails : Env → AlertRow → Redis → Bool
email_fails env alert redis =
    should_attempt_email env alert
    && quota_allows env alert redis
    && not (succeeds (env.notifier.send_email alert.id (recipients_of env.settings)))

abbrev telegram_fails : Env → AlertRow → Bool
telegram_fails env alert =
    should_send_telegram env alert && not (all_chats_succeed env alert (chats_of env.settings))

-- The sends that a job makes and that fail: over the quota no email is sent.
abbrev pub a_send_fails : Env → AlertRow → Redis → Bool
a_send_fails env alert redis =
    webhook_fails env alert || email_fails env alert redis || telegram_fails env alert

nonempty-snoc : (xs : List String) (x : String) → nonempty (xs ++ x ∷ []) ≡ true
nonempty-snoc [] x = refl
nonempty-snoc (y ∷ xs) x = refl

or_false : (b : Bool) → b ≡ (b || false)
or_false true = refl
or_false false = refl

or_true : (b : Bool) → true ≡ (b || true)
or_true true = refl
or_true false = refl

or_assoc : (a b c d : Bool) → (((a || b) || c) || d) ≡ (a || (b || c || d))
or_assoc true b c d = refl
or_assoc false true c d = refl
or_assoc false false c d = refl

-- One more error.
snoc-errors : (xs : List String) (x : String) → nonempty (xs ++ x ∷ []) ≡ (nonempty xs || true)
snoc-errors xs x = nonempty-snoc xs x ∙ or_true (nonempty xs)

or_not_and : (a b c : Bool) → ((a || not b) || not c) ≡ (a || not (b && c))
or_not_and true b c = refl
or_not_and false true c = refl
or_not_and false false c = refl

abbrev errors : Progress → Bool
errors p = nonempty p.channel_errors

module _ (env : Env) (alert : AlertRow) where
  webhook-errors :
      (p : Progress) → errors (attempt_webhook env alert p) ≡ (errors p || webhook_fails env alert)
  unfolding attempt_webhook
  webhook-errors p = elim (Bool-cases (should_attempt_webhook env alert)) [
    | inr e ↦ rw e (or_false (errors p))
    | inl e ↦
        elim (Option-cases (env.notifier.send_webhook alert.id (url_text (notifier_url env)))) [
          | inl s ↦ rw (e, s) (or_false (errors p))
          | inr (m, s) ↦ rw (e, s) (snoc-errors p.channel_errors _)
        ]
  ]

  quota-errors :
      (decision : EmailQuotaDecision) (w : World) (p : Progress)
      → errors (send_within_quota env alert decision w p) ≡ (
          errors p
          || (decision.allowed
              && not (succeeds (env.notifier.send_email alert.id (recipients_of env.settings)))))
  unfolding send_within_quota
  quota-errors decision w p = elim (Bool-cases decision.allowed) [
    | inr e ↦ rw e (or_false (errors p))
    | inl e ↦ elim (Option-cases (env.notifier.send_email alert.id (recipients_of env.settings))) [
      | inl s ↦ rw (e, s) (or_false (errors p))
      | inr (m, s) ↦ rw (e, s) (snoc-errors p.channel_errors _)
    ]
  ]

  email-errors :
      (p : Progress)
      → errors (attempt_email env alert p) ≡ (errors p || email_fails env alert p.world.redis)
  unfolding attempt_email
  email-errors p = elim (Bool-cases (should_attempt_email env alert)) [
    | inr e ↦ rw e (or_false (errors p))
    | inl e ↦ rw e (quota-errors _ (record p.world { redis = _ }) p)
  ]

  chat-errors :
      (chat : String) (o : Option String) (p : Progress)
      → errors (chat_result chat o p) ≡ (errors p || not (succeeds o))
  chat-errors chat none p = or_false (errors p)
  chat-errors chat (some m) p = snoc-errors p.channel_errors _

  chats-errors :
      (chats : List String) (p : Progress)
      → errors (send_chats env alert chats p)
        ≡ (errors p || not (all_chats_succeed env alert chats))
  unfolding send_chats all_chats_succeed
  chats-errors [] p = or_false (errors p)
  chats-errors (chat ∷ chats) p =
      let sent = env.notifier.send_telegram alert.id chat env.telegram_bot_token in
      let all = all_chats_succeed env alert chats in
      chats-errors chats _
      ∙ ap (λ b. b || not all)
          (chat-errors chat sent (record p { world = called (telegram_call chat) p.world }))
      ∙ or_not_and (errors p) (succeeds sent) all

  telegram-errors :
      (p : Progress)
      → errors (attempt_telegram env alert p) ≡ (errors p || telegram_fails env alert)
  unfolding attempt_telegram
  telegram-errors p = elim (Bool-cases (should_send_telegram env alert)) [
    | inr e ↦ rw e (or_false (errors p))
    | inl e ↦ elim (Bool-cases (all_chats_succeed env alert (chats_of env.settings))) [
      | inl s ↦ rw (e, s) (chats-errors (chats_of env.settings) p ∙ ap (λ b. errors p || not b) s)
      | inr s ↦ rw (e, s) (chats-errors (chats_of env.settings) p ∙ ap (λ b. errors p || not b) s)
    ]
  ]

  digest-errors : (p : Progress) → errors (queue_digest env alert p) ≡ errors p
  unfolding queue_digest
  digest-errors p = ground arith

  webhook-redis : (p : Progress) → (attempt_webhook env alert p).world.redis ≡ p.world.redis
  unfolding attempt_webhook
  webhook-redis p = ground arith

  attempts-errors : (w : World) → errors (attempts env alert w) ≡ a_send_fails env alert w.redis
  unfolding attempts
  attempts-errors w =
      let p0 : Progress = record { world = w; channel_errors = []; terminal_channel_errors = [] } in
      let p1 = attempt_webhook env alert p0 in
      let p2 = attempt_email env alert p1 in
      let p3 = attempt_telegram env alert p2 in
      digest-errors p3
      ∙ telegram-errors p2
      ∙ rw (email-errors p1, webhook-redis p0, webhook-errors p0)
          (or_assoc false (webhook_fails env alert) (email_fails env alert w.redis)
            (telegram_fails env alert))

pub conclude-is_err :
    (env : Env) (input : Input) (p : Progress) → is_err (conclude env input p).1 ≡ errors p
unfolding conclude
conclude-is_err env input p = ground arith

-- While the database answers every statement and the alert is not changed by anyone else
-- meanwhile, a job whose alert exists and has something to do fails, and so is retried by the
-- queue, if and only if a send that it makes fails; an email over the quota is no such send.
pub fails_when_a_send_fails :
    (env : Env) (input : Input) (alert : AlertRow) (w : World)
    → find_by_id_for_worker input.alert_id w.alerts ≡ some alert
    → nothing_to_do env alert ≡ false
    → is_err (process_alert_delivery env input w).1 ≡ a_send_fails env alert w.redis
unfolding process_alert_delivery process_alert
fails_when_a_send_fails env input alert w found busy =
    rw (found, busy)
      (conclude-is_err env input (attempts env alert w) ∙ attempts-errors env alert w)
