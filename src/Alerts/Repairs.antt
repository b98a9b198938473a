-- ===== src/Alerts/Repairs.antt =====
-- What the repair pass of a digest sweep, `reconcileTelegramDigestDeliveryStatus`, leaves.
use feedpulse.Base.{
  ℕ, ◌≡◌, ◌≢◌, refl, sym, ap, ◌∙◌, inl, inr, ◌⊎◌, Bool, true, false, not, ◌&&◌, List, [], ◌∷◌, Memᴰ,
  All, All-of_mem, All-imp, mem-update, Bool-cases, Option-cases, arith, any-mem, none_of_not_any,
  select, update, length, if◌then◌else◌, ◌==◌, ==_iff, Option, none, some, is_none, is_some,
  &&-eq-true,
}
use mathlib.Core.Bool.{false≢true}
use feedpulse.Alerts.Row.{AlertRow, DigestItem, ChannelStatus, telegram, is_channel_pending}
use feedpulse.Alerts.Marks.{delivered_row}
use feedpulse.Alerts.Digests.{
  DigestTables, has_unsent, has_sent, is_stale, reconcile_telegram_digest_delivery_status,
}

not-stale :
    (items : List DigestItem) (now : ℕ) (r : AlertRow)
    → is_stale items (if is_stale items r then delivered_row now telegram r else r) ≡ false
unfolding delivered_row
not-stale items now r = elim (Bool-cases (is_stale items r)) [
  | inl e ↦ rw e (unfold is_stale in refl)
  | inr e ↦ rw (e, e) refl
]

select-none {ℓ} :
    {A : Type ℓ} (p : A → Bool) (xs : List A) → All (λ x. p x ≡ false) xs → select p xs ≡ []
unfolding select
select-none p [] h = refl
select-none p (x ∷ xs) h = rw h.0 (select-none p xs h.1)

-- An alert that an interrupted sweep left behind: its channel is pending although an item of it and
-- every item of it is sent.
abbrev pub IsInterrupted : List DigestItem → AlertRow → Type 0
IsInterrupted items r =
    (r.telegram_delivery_status ≡ ChannelStatus.pending)
    × ((i : DigestItem) × Memᴰ i items × (i.alert_id ≡ r.id) × (i.sent_at ≢ none))
    × ((i : DigestItem) → Memᴰ i items → i.alert_id ≡ r.id → i.sent_at ≢ none)

-- An alert whose channel goes with its items: it is not pending, or an item of it is unsent, or no
-- item of it is sent.
abbrev pub IsConsistent : List DigestItem → AlertRow → Type 0
IsConsistent items r =
    (r.telegram_delivery_status ≢ ChannelStatus.pending)
    ⊎ ((i : DigestItem) × Memᴰ i items × (i.alert_id ≡ r.id) × (i.sent_at ≡ none))
    ⊎ ((i : DigestItem) → Memᴰ i items → i.alert_id ≡ r.id → i.sent_at ≡ none)

-- What the pass makes of an alert: an interrupted one is delivered, any other is left alone.
abbrev pub IsRepaired : ℕ → DigestTables → AlertRow → Type 0
IsRepaired now s x =
    (r : AlertRow) × Memᴰ r s.alerts
    × ((IsInterrupted s.items r × (x ≡ delivered_row now telegram r))
        ⊎ (IsConsistent s.items r × (x ≡ r)))

none_of-is_none {ℓ} : {A : Type ℓ} (o : Option A) → is_none o ≡ true → o ≡ none
none_of-is_none none h = refl
none_of-is_none (some a) h = absurd (false≢true h)

module _ (items : List DigestItem) (r : AlertRow) where
  has_sent-item :
      has_sent r.id items ≡ true
      → (i : DigestItem) × Memᴰ i items × (i.alert_id ≡ r.id) × (i.sent_at ≢ none)
  unfolding has_sent
  has_sent-item h =
      let (i, m, k) = any-mem (λ i. (i.alert_id == r.id) && is_some i.sent_at) items h in
      let (same, sent) = &&-eq-true (i.alert_id == r.id) (is_some i.sent_at) k in
      (i, m, (==_iff i.alert_id r.id).0 same, λ e. false≢true (sym (ap is_some e) ∙ sent))

  has_unsent-item :
      has_unsent r.id items ≡ true
      → (i : DigestItem) × Memᴰ i items × (i.alert_id ≡ r.id) × (i.sent_at ≡ none)
  unfolding has_unsent
  has_unsent-item h =
      let (i, m, k) = any-mem (λ i. (i.alert_id == r.id) && is_none i.sent_at) items h in
      let (same, unsent) = &&-eq-true (i.alert_id == r.id) (is_none i.sent_at) k in
      (i, m, (==_iff i.alert_id r.id).0 same, none_of-is_none i.sent_at unsent)

  all_sent :
      has_unsent r.id items ≡ false
      → (i : DigestItem) → Memᴰ i items
      → i.alert_id ≡ r.id
      → i.sent_at ≢ none
  unfolding has_unsent
  all_sent h i m same e = false≢true (
      sym (none_of_not_any (λ i. (i.alert_id == r.id) && is_none i.sent_at) items h i m)
      ∙ rw ((==_iff i.alert_id r.id).1 same, e) refl)

  none_sent :
      has_sent r.id items ≡ false
      → (i : DigestItem) → Memᴰ i items
      → i.alert_id ≡ r.id
      → i.sent_at ≡ none
  unfolding has_sent
  none_sent h i m same = elim (Option-cases i.sent_at) [
    | inl e ↦ e
    | inr (t, e) ↦ absurd (
        false≢true (
          sym (none_of_not_any (λ i. (i.alert_id == r.id) && is_some i.sent_at) items h i m)
          ∙ rw ((==_iff i.alert_id r.id).1 same, e) refl))
  ]

  pending-eq :
      (status : ChannelStatus) → is_channel_pending status ≡ true → status ≡ ChannelStatus.pending
  pending-eq ChannelStatus.pending h = refl
  pending-eq ChannelStatus.sent h = absurd (false≢true h)
  pending-eq ChannelStatus.failed h = absurd (false≢true h)

  stale-IsInterrupted : is_stale items r ≡ true → IsInterrupted items r
  unfolding is_stale
  stale-IsInterrupted h =
      let pending = is_channel_pending r.telegram_delivery_status in
      let (k, unsent) =
        &&-eq-true (pending && has_sent r.id items) (not (has_unsent r.id items)) h in
      let (p, some_sent) = &&-eq-true pending (has_sent r.id items) k in
      (pending-eq r.telegram_delivery_status p, has_sent-item some_sent, all_sent (ground arith))

  fresh-IsConsistent : is_stale items r ≡ false → IsConsistent items r
  unfolding is_stale
  fresh-IsConsistent h = elim (Bool-cases (has_unsent r.id items)) [
    | inl u ↦ inr (inl (has_unsent-item u))
    | inr u ↦ elim (Bool-cases (has_sent r.id items)) [
      | inr n ↦ inr (inr (none_sent n))
      | inl n ↦ inl (λ e. false≢true (sym h ∙ rw (ap is_channel_pending e, n, u) refl))
    ]
  ]

-- The repair pass heals every state that an interrupted sweep can leave: it delivers the
-- Telegram channel of exactly the alerts that are pending although they have digest items and
-- all of them are sent, and leaves each other alert as it was; after it, each alert is
-- consistent with its items, so that a second pass at any time repairs nothing.
pub reconcile_heals :
    (now later : ℕ) (s : DigestTables)
    → All (IsRepaired now s) (reconcile_telegram_digest_delivery_status now s).0.alerts
      × All (IsConsistent s.items) (reconcile_telegram_digest_delivery_status now s).0.alerts
      × ((reconcile_telegram_digest_delivery_status later
            (reconcile_telegram_digest_delivery_status now s).0).1
          ≡ 0)
unfolding reconcile_telegram_digest_delivery_status
reconcile_heals now later s =
    let healed =
      All-of_mem (λ r. is_stale s.items r ≡ false)
        (update (is_stale s.items) (delivered_row now telegram) s.alerts)
        (λ x m.
          let (r, _, e) = mem-update (is_stale s.items) (delivered_row now telegram) s.alerts m in
          ap (is_stale s.items) e ∙ not-stale s.items now r) in
    (
      All-of_mem (IsRepaired now s) _ (λ x m.
          let (r, n, e) = mem-update (is_stale s.items) (delivered_row now telegram) s.alerts m in
          (r, n, repaired r x e)),
      All-imp (λ r. is_stale s.items r ≡ false) (IsConsistent s.items) (fresh-IsConsistent s.items)
          _ healed,
      ap length (select-none (is_stale s.items) _ healed),
    )
  where
    repaired :
        (r x : AlertRow)
        → x ≡ (if is_stale s.items r then delivered_row now telegram r else r)
        → (IsInterrupted s.items r × (x ≡ delivered_row now telegram r))
          ⊎ (IsConsistent s.items r × (x ≡ r))
    repaired r x e = elim (Bool-cases (is_stale s.items r)) [
      | inl b ↦ inl (stale-IsInterrupted s.items r b, e ∙ rw b refl)
      | inr b ↦ inr (fresh-IsConsistent s.items r b, e ∙ rw b refl)
    ]
