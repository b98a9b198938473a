-- ===== src/Feeds/Quota.antt =====
-- src/modules/feeds/application/register-feed.use-case.ts: a tenant registers a feed.
use feedpulse.Base.{
  ℕ, ◌+◌, ◌≡◌, refl, ◌≤◌, ◌<◌, inl, inr, Bool, true, not, Option, String, List, [], ◌∷◌, ◌++◌, ◌==◌,
  if◌then◌else◌, ltb, Bool-cases, count, any, or_else, str_eq, Result, err, bad_request, forbidden,
  arith,
}
use feedpulse.Feeds.Row.{FeedStatus, active, FeedRow, Feed}
use feedpulse.Feeds.Exclusion.{table_after}
use feedpulse.Feeds.Editing.{create, inserted_row, collides}

-- The input of `execute`.
pub record Registration : Type 0 where
  pub tenant_id : String
  pub url : String
  pub poll_interval_seconds : Option ℕ
  pub status : Option FeedStatus

-- `total` of `list` without a filter on the status or the url.
unfoldable pub tenant_feeds_total : String → List FeedRow → ℕ
tenant_feeds_total tenant_id rows = count (λ r. str_eq r.tenant_id tenant_id) rows

-- `assertQuotaAvailable` returns instead of throwing. A cap of 0 is no cap.
unfoldable pub is_quota_available : ℕ → String → List FeedRow → Bool
is_quota_available max_feeds tenant_id rows =
    if max_feeds == 0 then true else ltb (tenant_feeds_total tenant_id rows) max_feeds

-- `execute`, with nothing between the count and the insert: two requests that overlap can both pass
-- the check, as the source's comment says. `is_safe url` is that `assertSafePublicUrl` does not throw, `hash`, `id` and `now` are
-- those of the insert.
unfoldable pub register_feed :
    (String → Bool)
    → (String → Option String)
    → ℕ
    → ℕ
    → ℕ
    → Registration
    → List FeedRow
    → Result (List FeedRow × Feed)
register_feed is_safe hash max_feeds id now input rows =
    if not (is_safe input.url)
    then err (bad_request "unsafe_feed_url")
    else if is_quota_available max_feeds input.tenant_id rows
    then create hash id now input.tenant_id input.url (or_else input.poll_interval_seconds 1800)
        (or_else input.status active) rows
    else err (forbidden "feed_limit_reached")

count-snoc :
    (p : FeedRow → Bool) (rows : List FeedRow) (new : FeedRow)
    → count p (rows ++ new ∷ []) ≡ count p rows + (if p new then 1 else 0)
unfolding count
count-snoc p [] new = elim (Bool-cases (p new)) [ inl e ↦ rw e refl | inr e ↦ rw e refl ]
count-snoc p (r ∷ rows) new = elim (Bool-cases (p r)) [
  | inl e ↦ rw e (omega (arith, count-snoc p rows new))
  | inr e ↦ rw e (count-snoc p rows new)
]

-- The insert adds at most one to the total of its own tenant, and nothing to another's.
pub total-create :
    (hash : String → Option String) (id now : ℕ) (owner url : String) (poll : ℕ)
    (status : FeedStatus) (tenant_id : String) (rows : List FeedRow)
    → tenant_feeds_total tenant_id
        (table_after rows (create hash id now owner url poll status rows))
      ≤ tenant_feeds_total tenant_id rows + (if str_eq owner tenant_id then 1 else 0)
unfolding create tenant_feeds_total
total-create hash id now owner url poll status tenant_id rows =
    elim (Bool-cases (any (collides owner url (hash url)) rows)) [
      | inl e ↦ rw e (omega arith)
      | inr e ↦ rw e (
          omega (
            arith,
            count-snoc (λ r. str_eq r.tenant_id tenant_id) rows
                (inserted_row id now owner url (hash url) poll status),
          ))
    ]

pub room-below :
    (max_feeds : ℕ) (tenant_id : String) (rows : List FeedRow)
    → 0 < max_feeds
    → is_quota_available max_feeds tenant_id rows ≡ true
    → tenant_feeds_total tenant_id rows < max_feeds
unfolding is_quota_available
room-below max_feeds tenant_id rows pos h = ground arith
