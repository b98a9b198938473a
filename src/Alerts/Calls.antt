-- ===== src/Alerts/Calls.antt =====
-- Which sends a delivery job makes: none on a channel that is already delivered.
use feedpulse.Base.{
  ◌≡◌, refl, sym, ap, ◌∙◌, ◌≢◌, inl, inr, true, some, List, [], ◌∷◌, ◌++◌, String, Bool-cases,
  Option-cases, arith, All, All-append,
}
use mathlib.Core.List.{append_assoc, append-nil}
use feedpulse.Notifications.Quota.{EmailQuotaDecision}
use feedpulse.Alerts.Row.{
  AlertRow, ChannelStatus, DeliveryChannel, webhook, telegram, email, channel_status,
}
use feedpulse.Alerts.Marks.{find_by_id_for_worker}
use feedpulse.Alerts.Notifier.{Env}
use feedpulse.Alerts.Delivery.{
  World, Progress, Call, webhook_call, email_call, telegram_call, channel_of, attempt_webhook,
  attempt_email, attempt_telegram, send_within_quota, send_chats, should_attempt_webhook,
  should_attempt_email, should_send_telegram, all_chats_succeed, chats_of, notifier_url, url_text,
  recipients_of,
}
use feedpulse.Alerts.Process.{
  Input, queue_digest, conclude, attempts, nothing_to_do, process_alert, process_alert_delivery,
  count_sent,
}

-- The second record of calls continues the first, with no call on the channel.
abbrev pub Spares : DeliveryChannel → List Call → List Call → Type 0
Spares c before after =
    (new : List Call) × (after ≡ before ++ new) × All (λ k. channel_of k ≢ c) new

Spares-refl : (c : DeliveryChannel) (a : List Call) → Spares c a a
Spares-refl c a = ([], sym (append-nil a), tt)

Spares-trans :
    (c : DeliveryChannel) (a b d : List Call) → Spares c a b → Spares c b d → Spares c a d
Spares-trans c a b d (n, e, h) (m, f, k) =
    (n ++ m, f ∙ ap (λ l. l ++ m) e ∙ append_assoc a n m, All-append _ n m h k)

Spares-one :
    (c : DeliveryChannel) (a : List Call) (k : Call) → channel_of k ≢ c → Spares c a (a ++ k ∷ [])
Spares-one c a k h = (k ∷ [], refl, (h, tt))

abbrev calls : Progress → List Call
calls p = p.world.calls

-- A channel that is to be sent on is not delivered.
webhook-other :
    (c : DeliveryChannel) (env : Env) (alert : AlertRow)
    → channel_status c alert ≡ ChannelStatus.sent
    → should_attempt_webhook env alert ≡ true
    → webhook ≢ c
unfolding should_attempt_webhook
webhook-other webhook env alert done e same = ground arith
webhook-other telegram env alert done e same = ground arith
webhook-other email env alert done e same = ground arith

email-other :
    (c : DeliveryChannel) (env : Env) (alert : AlertRow)
    → channel_status c alert ≡ ChannelStatus.sent
    → should_attempt_email env alert ≡ true
    → email ≢ c
unfolding should_attempt_email
email-other webhook env alert done e same = ground arith
email-other telegram env alert done e same = ground arith
email-other email env alert done e same = ground arith

telegram-other :
    (c : DeliveryChannel) (env : Env) (alert : AlertRow)
    → channel_status c alert ≡ ChannelStatus.sent
    → should_send_telegram env alert ≡ true
    → telegram ≢ c
unfolding should_send_telegram
telegram-other webhook env alert done e same = ground arith
telegram-other telegram env alert done e same = ground arith
telegram-other email env alert done e same = ground arith

module _ (c : DeliveryChannel) (env : Env) (alert : AlertRow)
    (done : channel_status c alert ≡ ChannelStatus.sent) where
  webhook-Spares : (p : Progress) → Spares c (calls p) (calls (attempt_webhook env alert p))
  unfolding attempt_webhook
  webhook-Spares p = elim (Bool-cases (should_attempt_webhook env alert)) [
    | inr e ↦ rw e (Spares-refl c (calls p))
    | inl e ↦
        let other : webhook ≢ c = webhook-other c env alert done e in
        elim (Option-cases (env.notifier.send_webhook alert.id (url_text (notifier_url env)))) [
          | inl s ↦ rw (e, s) (Spares-one c (calls p) (webhook_call _) other)
          | inr (m, s) ↦ rw (e, s) (Spares-one c (calls p) (webhook_call _) other)
        ]
  ]

  quota-Spares :
      (decision : EmailQuotaDecision) (w : World) (p : Progress)
      → email ≢ c
      → Spares c w.calls (calls (send_within_quota env alert decision w p))
  unfolding send_within_quota
  quota-Spares decision w p other = elim (Bool-cases decision.allowed) [
    | inr e ↦ rw e (Spares-refl c w.calls)
    | inl e ↦ elim (Option-cases (env.notifier.send_email alert.id (recipients_of env.settings))) [
      | inl s ↦ rw (e, s) (Spares-one c w.calls (email_call _) other)
      | inr (m, s) ↦ rw (e, s) (Spares-one c w.calls (email_call _) other)
    ]
  ]

  email-Spares : (p : Progress) → Spares c (calls p) (calls (attempt_email env alert p))
  unfolding attempt_email
  email-Spares p = elim (Bool-cases (should_attempt_email env alert)) [
    | inr e ↦ rw e (Spares-refl c (calls p))
    | inl e ↦
        rw e (quota-Spares _ (record p.world { redis = _ }) p (email-other c env alert done e))
  ]

  chats-Spares :
      (chats : List String) (p : Progress)
      → telegram ≢ c
      → Spares c (calls p) (calls (send_chats env alert chats p))
  unfolding send_chats
  chats-Spares [] p other = Spares-refl c (calls p)
  chats-Spares (chat ∷ chats) p other =
      let first = Spares-one c (calls p) (telegram_call chat) other in
      elim (Option-cases (env.notifier.send_telegram alert.id chat env.telegram_bot_token)) [
        | inl s ↦ rw s (Spares-trans c (calls p) _ _ first (chats-Spares chats _ other))
        | inr (m, s) ↦ rw s (Spares-trans c (calls p) _ _ first (chats-Spares chats _ other))
      ]

  telegram-Spares : (p : Progress) → Spares c (calls p) (calls (attempt_telegram env alert p))
  unfolding attempt_telegram
  telegram-Spares p = elim (Bool-cases (should_send_telegram env alert)) [
    | inr e ↦ rw e (Spares-refl c (calls p))
    | inl e ↦
        let spares = chats-Spares (chats_of env.settings) p (telegram-other c env alert done e) in
        elim (Bool-cases (all_chats_succeed env alert (chats_of env.settings))) [
          | inl s ↦ rw (e, s) spares
          | inr s ↦ rw (e, s) spares
        ]
  ]

  digest-calls : (p : Progress) → calls (queue_digest env alert p) ≡ calls p
  unfolding queue_digest
  digest-calls p = ground arith

  attempts-Spares : (w : World) → Spares c w.calls (calls (attempts env alert w))
  unfolding attempts
  attempts-Spares w =
      let p0 : Progress = record { world = w; channel_errors = []; terminal_channel_errors = [] } in
      let p1 = attempt_webhook env alert p0 in
      let p2 = attempt_email env alert p1 in
      let p3 = attempt_telegram env alert p2 in
      rw (digest-calls p3) (
        Spares-trans c (calls p0) (calls p2) (calls p3)
          (Spares-trans c (calls p0) (calls p1) (calls p2) (webhook-Spares p0) (email-Spares p1))
          (telegram-Spares p2))

conclude-calls :
    (env : Env) (input : Input) (p : Progress) → (conclude env input p).0.calls ≡ calls p
unfolding conclude count_sent
conclude-calls env input p = ground arith

process_alert-Spares :
    (c : DeliveryChannel) (env : Env) (input : Input) (alert : AlertRow) (w : World)
    → channel_status c alert ≡ ChannelStatus.sent
    → Spares c w.calls (process_alert env input alert w).0.calls
unfolding process_alert
process_alert-Spares c env input alert w done = elim (Bool-cases (nothing_to_do env alert)) [
  | inl e ↦ rw e (Spares-refl c w.calls)
  | inr e ↦
      rw (e, conclude-calls env input (attempts env alert w)) (attempts-Spares c env alert done w)
]

-- A retry repeats no send: whatever calls of the notifier a delivery job adds, none is on a channel
-- whose column on the alert is already 'sent'.
pub no_resend :
    (c : DeliveryChannel) (env : Env) (input : Input) (alert : AlertRow) (w : World)
    → find_by_id_for_worker input.alert_id w.alerts ≡ some alert
    → channel_status c alert ≡ ChannelStatus.sent
    → Spares c w.calls (process_alert_delivery env input w).0.calls
unfolding process_alert_delivery
no_resend c env input alert w found done = rw found (process_alert-Spares c env input alert w done)
