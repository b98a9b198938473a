-- ===== src/Alerts/Columns.antt =====
-- A column of an alert through the attempts of a delivery: what no attempt writes.
use feedpulse.Base.{
  ℕ, ◌≡◌, refl, ap, ◌∙◌, inl, inr, Option, some, List, [], ◌∷◌, ◌==◌, Bool-cases, Option-cases,
  arith, find, update,
}
use mathlib.Core.Option
use mathlib.Core.Option.{some-injective}
use feedpulse.Notifications.Quota.{EmailQuotaDecision}
use feedpulse.Alerts.Row.{AlertRow, webhook, telegram, email}
use feedpulse.Alerts.Marks.{
  by_id, find_by_id_for_worker, mark_channel_delivered, mark_channel_failed, delivered_row,
  failed_row,
}
use feedpulse.Alerts.Notifier.{Env}
use feedpulse.Alerts.Delivery.{
  World, Progress, attempt_webhook, attempt_email, attempt_telegram, send_within_quota,
  should_attempt_webhook, should_attempt_email, should_send_telegram, all_chats_succeed, chats_of,
  notifier_url, url_text, recipients_of,
}
use feedpulse.Alerts.Process.{attempts}
use feedpulse.Alerts.Monotone.{chats-rows, digest-rows}

-- A column of the alert with an id.
abbrev pub column {ℓ} : {B : Type ℓ} → (AlertRow → B) → ℕ → List AlertRow → Option B
column g j alerts = Option.map g (find_by_id_for_worker j alerts)

pub column-by_id {ℓ} :
    {B : Type ℓ} (g : AlertRow → B) (id j : ℕ) (f : AlertRow → AlertRow)
    → ((r : AlertRow) → (f r).id ≡ r.id)
    → ((r : AlertRow) → g (f r) ≡ g r)
    → (alerts : List AlertRow) → column g j (by_id id f alerts) ≡ column g j alerts
unfolding find_by_id_for_worker by_id find update
column-by_id g id j f keeps same [] = refl
column-by_id g id j f keeps same (a ∷ alerts) = elim (Bool-cases (a.id == id)) [
  | inl h ↦ elim (Bool-cases (a.id == j)) [
    | inl e ↦ rw (h, ap (λ n. n == j) (keeps a) ∙ e, e) (ap some (same a))
    | inr e ↦ rw (h, ap (λ n. n == j) (keeps a) ∙ e, e) (column-by_id g id j f keeps same alerts)
  ]
  | inr h ↦ elim (Bool-cases (a.id == j)) [
    | inl e ↦ rw (h, e) refl
    | inr e ↦ rw (h, e) (column-by_id g id j f keeps same alerts)
  ]
]

module _ (env : Env) (alert : AlertRow) (j : ℕ) where
  pub webhook-column {ℓ} :
      {B : Type ℓ} (g : AlertRow → B) (p : Progress)
      → ((r : AlertRow) → g (delivered_row env.now webhook r) ≡ g r)
      → column g j (attempt_webhook env alert p).world.alerts ≡ column g j p.world.alerts
  unfolding attempt_webhook mark_channel_delivered delivered_row
  webhook-column g p same = elim (Bool-cases (should_attempt_webhook env alert)) [
    | inr e ↦ rw e refl
    | inl e ↦
        elim (Option-cases (env.notifier.send_webhook alert.id (url_text (notifier_url env)))) [
          | inl s ↦
              rw (e, s)
                (column-by_id g alert.id j (delivered_row env.now webhook) (λ r. refl) same
                  p.world.alerts)
          | inr (m, s) ↦ rw (e, s) refl
        ]
  ]

  pub telegram-column {ℓ} :
      {B : Type ℓ} (g : AlertRow → B) (p : Progress)
      → ((r : AlertRow) → g (delivered_row env.now telegram r) ≡ g r)
      → column g j (attempt_telegram env alert p).world.alerts ≡ column g j p.world.alerts
  unfolding attempt_telegram mark_channel_delivered delivered_row
  telegram-column g p same = elim (Bool-cases (should_send_telegram env alert)) [
    | inr e ↦ rw e refl
    | inl e ↦ elim (Bool-cases (all_chats_succeed env alert (chats_of env.settings))) [
      | inr s ↦ rw (e, s, chats-rows env alert (chats_of env.settings) p) refl
      | inl s ↦
          rw (e, s, chats-rows env alert (chats_of env.settings) p)
            (column-by_id g alert.id j (delivered_row env.now telegram) (λ r. refl) same
              p.world.alerts)
    ]
  ]

  failed_row-id : (r : AlertRow) → (failed_row env.now email r).id ≡ r.id
  unfolding failed_row
  failed_row-id r = ground arith

  failed_row-sent : (r : AlertRow) → (failed_row env.now email r).sent ≡ r.sent
  unfolding failed_row
  failed_row-sent r = ground arith

  quota-sent :
      (decision : EmailQuotaDecision) (w : World) (p : Progress)
      → column (λ r. r.sent) j (send_within_quota env alert decision w p).world.alerts
        ≡ column (λ r. r.sent) j w.alerts
  unfolding send_within_quota mark_channel_delivered mark_channel_failed delivered_row
  quota-sent decision w p = elim (Bool-cases decision.allowed) [
    | inr e ↦ rw e (
        column-by_id (λ r. r.sent) alert.id j (failed_row env.now email) failed_row-id
          failed_row-sent w.alerts)
    | inl e ↦ elim (Option-cases (env.notifier.send_email alert.id (recipients_of env.settings))) [
      | inl s ↦
          rw (e, s)
            (column-by_id (λ r. r.sent) alert.id j (delivered_row env.now email) (λ r. refl)
              (λ r. refl) w.alerts)
      | inr (m, s) ↦ rw (e, s) refl
    ]
  ]

  email-sent :
      (p : Progress)
      → column (λ r. r.sent) j (attempt_email env alert p).world.alerts
        ≡ column (λ r. r.sent) j p.world.alerts
  unfolding attempt_email
  email-sent p = elim (Bool-cases (should_attempt_email env alert)) [
    | inr e ↦ rw e refl
    | inl e ↦ rw e (quota-sent _ (record p.world { redis = _ }) p)
  ]

  -- No attempt marks an alert as sent.
  pub attempts-sent :
      (w : World)
      → column (λ r. r.sent) j (attempts env alert w).world.alerts ≡ column (λ r. r.sent) j w.alerts
  unfolding attempts delivered_row
  attempts-sent w =
      let p0 : Progress = record { world = w; channel_errors = []; terminal_channel_errors = [] } in
      let p1 = attempt_webhook env alert p0 in
      let p2 = attempt_email env alert p1 in
      let p3 = attempt_telegram env alert p2 in
      rw (digest-rows env alert p3) (
        telegram-column (λ r. r.sent) p2 (λ r. refl)
        ∙ email-sent p1
        ∙ webhook-column (λ r. r.sent) p0 (λ r. refl))
