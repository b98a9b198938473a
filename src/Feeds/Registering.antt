-- ===== src/Feeds/Registering.antt =====
-- Registrations that overlap: the count of `assertQuotaAvailable` and the insert of
-- src/modules/feeds/application/register-feed.use-case.ts as separate steps.
use feedpulse.Base.{
  ℕ, suc, ◌+◌, ◌≤◌, ◌<◌, ◌≡◌, Bool, true, false, Option, String, List, or_else, str_eq, eq_iff, sym,
  ap, ◌∙◌, arith, Bool-cases, inl, inr, if◌then◌else◌,
}
use feedpulse.Feeds.Row.{active, FeedRow}
use feedpulse.Feeds.Exclusion.{table_after}
use feedpulse.Feeds.Editing.{create}
use feedpulse.Feeds.Quota.{
  Registration, tenant_feeds_total, is_quota_available, register_feed, total-create, room-below,
}

-- The table; the requests of one tenant that have passed the check and not inserted; and how many
-- passed it while another one was there.
pub record Intake : Type 0 where
  pub rows : List FeedRow
  pub passed : ℕ
  pub overlapping : ℕ

-- What an insert of a registration does to the table; where it conflicts, nothing.
abbrev pub insert_registration :
    (String → Option String) → ℕ → ℕ → Registration → List FeedRow → List FeedRow
insert_registration hash id now input rows = table_after rows (
    create hash id now input.tenant_id input.url (or_else input.poll_interval_seconds 1800)
      (or_else input.status active) rows)

module _ (is_safe : String → Bool) (hash : String → Option String) (max_feeds : ℕ)
    (tenant_id : String) where
  -- A request of the tenant passes the checks, alone or beside others; one that has passed inserts;
  -- and a request of another tenant inserts.
  pub data Step (s : Intake) : Intake → Type 0 where
    passes :
        (url : String)
        → is_safe url ≡ true
        → is_quota_available max_feeds tenant_id s.rows ≡ true
        → s.passed ≡ 0
        → Step s (record s { passed = 1 })
    passes_beside :
        (url : String) (n : ℕ)
        → is_safe url ≡ true
        → is_quota_available max_feeds tenant_id s.rows ≡ true
        → s.passed ≡ suc n
        → Step s (record s { passed = suc s.passed; overlapping = suc s.overlapping })
    inserts :
        (id now : ℕ) (input : Registration) (n : ℕ)
        → str_eq input.tenant_id tenant_id ≡ true
        → s.passed ≡ suc n
        → Step s (record s { rows = insert_registration hash id now input s.rows; passed = n })
    another_inserts :
        (id now : ℕ) (input : Registration)
        → str_eq input.tenant_id tenant_id ≡ false
        → Step s (record s { rows = insert_registration hash id now input s.rows })

  pub data Reach (s : Intake) : Intake → Type 0 where
    here : Reach s s
    next : {t u : Intake} → Reach s t → Step t u → Reach s u

  abbrev IsWithin : Intake → Type 0
  IsWithin s = tenant_feeds_total tenant_id s.rows + s.passed ≤ max_feeds + s.overlapping

  total-insert :
      (id now : ℕ) (input : Registration) (rows : List FeedRow)
      → tenant_feeds_total tenant_id (insert_registration hash id now input rows)
        ≤ tenant_feeds_total tenant_id rows + (if str_eq input.tenant_id tenant_id then 1 else 0)
  total-insert id now input rows =
      total-create hash id now input.tenant_id input.url (or_else input.poll_interval_seconds 1800)
        (or_else input.status active) tenant_id rows

  Step-IsWithin : {s t : Intake} → 0 < max_feeds → Step s t → IsWithin s → IsWithin t
  Step-IsWithin {s} enabled (passes url safe room alone) v =
      omega (arith, room-below max_feeds tenant_id s.rows enabled room)
  Step-IsWithin {s} enabled (passes_beside url n safe room beside) v = omega (arith, v)
  Step-IsWithin {s} enabled (inserts id now input n own there) v =
      let more = rw own at (total-insert id now input s.rows) in omega (arith, v, there, more)
  Step-IsWithin {s} enabled (another_inserts id now input other) v =
      let same = rw other at (total-insert id now input s.rows) in omega (arith, v, same)

  Reach-IsWithin : {s t : Intake} → 0 < max_feeds → Reach s t → IsWithin s → IsWithin t
  Reach-IsWithin enabled here v = v
  Reach-IsWithin enabled (next r st) v = Step-IsWithin enabled st (Reach-IsWithin enabled r v)

  -- However the checks and the inserts of registrations interleave, of one tenant and of
  -- others, under a cap that is not 0: a tenant that owns no more feeds than the cap at first,
  -- when none of its requests is under way, never owns more than the cap and the number of its
  -- requests together that passed the check of the quota while another of its requests was
  -- between that check and its insert; so no more than the cap if its requests do not overlap.
  pub registrations_keep_quota :
      {s t : Intake}
      → 0 < max_feeds
      → tenant_feeds_total tenant_id s.rows ≤ max_feeds
      → s.passed + s.overlapping ≡ 0
      → Reach s t
      → tenant_feeds_total tenant_id t.rows ≤ max_feeds + t.overlapping
  registrations_keep_quota {s} {t} enabled fit start r =
      let v = Reach-IsWithin enabled r (omega (arith, fit, start)) in omega (arith, v)

  -- A request of the tenant that meets no other is such a run.
  register_feed-Reach :
      (id now : ℕ) (input : Registration) (s : Intake)
      → input.tenant_id ≡ tenant_id
      → s.passed ≡ 0
      → Reach s (record s {
        rows = table_after s.rows (register_feed is_safe hash max_feeds id now input s.rows);
      })
  unfolding register_feed
  register_feed-Reach id now input s own alone = elim (Bool-cases (is_safe input.url)) [
    | inr e ↦ rw e here
    | inl e ↦ elim (Bool-cases (is_quota_available max_feeds input.tenant_id s.rows)) [
      | inr f ↦ rw (e, f) here
      | inl f ↦
          let room = ap (λ t. is_quota_available max_feeds t s.rows) (sym own) ∙ f in
          rw (e, f)
            (next (next here (passes input.url e room alone)) (
              inserts id now input s.passed ((eq_iff input.tenant_id tenant_id).1 own)
                (ap suc (sym alone))))
    ]
  ]
