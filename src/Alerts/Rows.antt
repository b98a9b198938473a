-- ===== src/Alerts/Rows.antt =====
-- The statements on one alert, seen through the lookup of it: an UPDATE by id changes the row that the
-- lookup finds and no other.
use feedpulse.Base.{
  ℕ, ◌≡◌, refl, ap, ◌∙◌, subst, ◌≢◌, inl, inr, Bool, true, some, List, [], ◌∷◌, String, ◌==◌,
  Bool-cases, find, update, arith,
}
use mathlib.Core.Option
use native.Mathlib.Decide.{ℕ_discrete}
use feedpulse.Alerts.Row.{AlertRow, ChannelStatus, DeliveryChannel, webhook, telegram, email}
use feedpulse.Alerts.Marks.{
  by_id, find_by_id_for_worker, disabled_row, sent_row, failure_row, delivered_row, failed_row,
  retry_row, queued_row,
}

module _ (id : ℕ) (f : AlertRow → AlertRow) (keeps : (r : AlertRow) → (f r).id ≡ r.id) where
  -- The row that was found, as the statement leaves it.
  pub find-by_id :
      (alerts : List AlertRow) {r : AlertRow}
      → find_by_id_for_worker id alerts ≡ some r
      → find_by_id_for_worker id (by_id id f alerts) ≡ some (f r)
  unfolding find_by_id_for_worker by_id find update
  find-by_id [] e = cc
  find-by_id (a ∷ alerts) {r} e = elim (Bool-cases (a.id == id)) [
    | inl h ↦
        let hit : ((f a).id == id) ≡ true = ap (λ n. n == id) (keeps a) ∙ h in
        let same : some a ≡ some r = rw h at e in rw (h, hit) (ap (Option.map f) same)
    | inr h ↦ rw (h, h) (find-by_id alerts (rw h at e))
  ]

  pub find-by_id_ne :
      (j : ℕ) (alerts : List AlertRow)
      → id ≢ j
      → find_by_id_for_worker j (by_id id f alerts) ≡ find_by_id_for_worker j alerts
  unfolding find_by_id_for_worker by_id find update
  find-by_id_ne j [] h = refl
  find-by_id_ne j (a ∷ alerts) h = elim (Bool-cases (a.id == id)) [
    | inl e ↦ rw e (ground (arith, find-by_id_ne j alerts h, keeps a))
    | inr e ↦ rw e (ground (arith, find-by_id_ne j alerts h))
  ]

-- What no statement of a delivery takes back: a channel that was delivered, and `sent`.
pub record Advances (r s : AlertRow) : Type 0 where
  pub same_id : s.id ≡ r.id
  pub keeps_sent : r.sent ≡ true → s.sent ≡ true
  pub keeps_webhook :
      r.webhook_delivery_status ≡ ChannelStatus.sent
      → s.webhook_delivery_status ≡ ChannelStatus.sent
  pub keeps_telegram :
      r.telegram_delivery_status ≡ ChannelStatus.sent
      → s.telegram_delivery_status ≡ ChannelStatus.sent
  pub keeps_email :
      r.email_delivery_status ≡ ChannelStatus.sent → s.email_delivery_status ≡ ChannelStatus.sent

pub Advances-refl : (r : AlertRow) → Advances r r
Advances-refl r = ground arith

pub Advances-trans : {r s t : AlertRow} → Advances r s → Advances s t → Advances r t
Advances-trans a b = record {
  same_id = b.same_id ∙ a.same_id;
  keeps_sent = λ h. b.keeps_sent (a.keeps_sent h);
  keeps_webhook = λ h. b.keeps_webhook (a.keeps_webhook h);
  keeps_telegram = λ h. b.keeps_telegram (a.keeps_telegram h);
  keeps_email = λ h. b.keeps_email (a.keeps_email h);
}

module _ (now : ℕ) (r : AlertRow) where
  pub queued_row-Advances : Advances r (queued_row now r)
  unfolding queued_row
  queued_row-Advances = ground arith

  pub disabled_row-Advances : Advances r (disabled_row now r)
  unfolding disabled_row
  disabled_row-Advances = ground arith

  pub sent_row-Advances : (n : ℕ) → Advances r (sent_row now n r)
  unfolding sent_row
  sent_row-Advances n = ground arith

  pub failure_row-Advances :
      (n : ℕ) (m : String) (again : Bool) → Advances r (failure_row now n m again r)
  unfolding failure_row
  failure_row-Advances n m again = ground arith

  pub retry_row-Advances : (n : ℕ) → Advances r (retry_row now n r)
  unfolding retry_row
  retry_row-Advances n = ground arith

  pub delivered_row-Advances : (c : DeliveryChannel) → Advances r (delivered_row now c r)
  unfolding delivered_row
  delivered_row-Advances webhook = ground arith
  delivered_row-Advances telegram = ground arith
  delivered_row-Advances email = ground arith

  pub failed_row-Advances : (c : DeliveryChannel) → Advances r (failed_row now c r)
  unfolding failed_row
  failed_row-Advances webhook = ground arith
  failed_row-Advances telegram = ground arith
  failed_row-Advances email = ground arith

-- Every row of the first table has gone on to one of the second.
abbrev pub Follows : List AlertRow → List AlertRow → Type 0
Follows before after =
    (j : ℕ) (r : AlertRow)
    → find_by_id_for_worker j before ≡ some r
    → (s : AlertRow) × (find_by_id_for_worker j after ≡ some s) × Advances r s

pub Follows-refl : (alerts : List AlertRow) → Follows alerts alerts
Follows-refl alerts j r e = (r, e, Advances-refl r)

pub Follows-trans : (a b c : List AlertRow) → Follows a b → Follows b c → Follows a c
Follows-trans a b c f g j r e =
    let (s, e', v) = f j r e in let (t, e'', v') = g j s e' in (t, e'', Advances-trans v v')

pub by_id-Follows :
    (id : ℕ) (f : AlertRow → AlertRow) (alerts : List AlertRow)
    → ((r : AlertRow) → Advances r (f r))
    → Follows alerts (by_id id f alerts)
by_id-Follows id f alerts h j r e = elim (ℕ_discrete id j) [
  | yes same ↦ (
    f r,
    subst (λ k. find_by_id_for_worker k (by_id id f alerts) ≡ some (f r)) same
        (find-by_id id f (λ a. (h a).same_id) alerts (rw (← same) at e)),
    h r,
  )
  | no other ↦ (r, find-by_id_ne id f (λ a. (h a).same_id) j alerts other ∙ e, Advances-refl r)
]
