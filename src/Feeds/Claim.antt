-- ===== src/Feeds/Claim.antt =====
-- The scheduler's side of the `feeds` table: `claimDueFeeds`, `releaseStuckFeeds` and `isClaimed`
-- of modules/feeds/feeds.repository.ts. NOW() is an argument. `locked` tells the rows that another
-- transaction holds at that moment, which FOR UPDATE SKIP LOCKED passes over. RANDOM() of a row is
-- `draw id / 2 ^ 53`. Rows that ORDER BY leaves equal keep the table's order.
use feedpulse.Base.{
  ℕ, ◌+◌, ◌*◌, ◌/◌, ◌%◌, ◌^◌, min, String, Bool, true, false, not, ◌&&◌, ◌||◌, Option, none, some,
  List, map, ltb, leb, ◌==◌, if◌then◌else◌, take, length, contains, select, update, sort_by,
  is_none, is_some, str_eq, Result, ok, err, bad_request,
}
use feedpulse.Feeds.Row.{
  FeedStatus, active, paused, error, FeedRow, Feed, map_feed, claim_priority_by_status,
  case_priority, max_claim_jitter_seconds, is_auto_paused,
}

abbrev pub draw_range : ℕ
draw_range = 2 ^ 53

-- `x::int` of the quotient n / d, d > 0: to the nearest whole number, a half to the even one.
unfoldable pub round_half_even : ℕ → ℕ → ℕ
round_half_even n d =
    let q = n / d in
    let r = n % d in
    if ltb (2 * r) d then q else if ltb d (2 * r) then q + 1 else if q % 2 == 0 then q else q + 1

-- `(RANDOM() * LEAST(300, poll_interval_seconds * 0.2))::int`, with 0.2 = 1 / 5.
unfoldable pub claim_jitter_seconds : ℕ → ℕ → ℕ
unfolding round_half_even
claim_jitter_seconds draw poll_interval_seconds =
    round_half_even (draw * min (5 * max_claim_jitter_seconds) poll_interval_seconds)
      (5 * draw_range)

-- The status part of the claim query's WHERE.
unfoldable pub is_eligible : FeedStatus → Option String → Bool
is_eligible active last_error = true
is_eligible error last_error = true
is_eligible paused last_error = is_auto_paused last_error

-- The claim query's WHERE.
unfoldable pub is_claimable : ℕ → FeedRow → Bool
is_claimable now r =
    leb r.next_check_at now && is_none r.claimed_at && is_eligible r.status r.last_error

-- The claim query's ORDER BY.
unfoldable pub claims_before : FeedRow → FeedRow → Bool
claims_before r s =
    ltb (case_priority r.status) (case_priority s.status)
    || ((case_priority r.status == case_priority s.status) && leb r.next_check_at s.next_check_at)

-- The claim query's SET.
unfoldable pub claim_row : ℕ → (ℕ → ℕ) → FeedRow → FeedRow
claim_row now draw r = record r {
  next_check_at =
      now
      + (r.poll_interval_seconds + claim_jitter_seconds (draw r.id) r.poll_interval_seconds) * 1000;
  claimed_at = some now;
  updated_at = now;
}

-- The comparator of the claimed rows: `priority(left) - priority(right) || left.id - right.id`.
unfoldable pub hands_over_before : FeedRow → FeedRow → Bool
hands_over_before left right =
    ltb (claim_priority_by_status left.status) (claim_priority_by_status right.status)
    || ((claim_priority_by_status left.status == claim_priority_by_status right.status)
        && leb left.id right.id)

-- The inner SELECT: the rows of the batch.
unfoldable pub batch_rows : ℕ → ℕ → (ℕ → Bool) → List FeedRow → List FeedRow
batch_rows limit now locked rows =
    take limit (sort_by claims_before (select (λ r. is_claimable now r && not (locked r.id)) rows))

unfoldable pub batch_ids : ℕ → ℕ → (ℕ → Bool) → List FeedRow → List ℕ
batch_ids limit now locked rows = map (λ r. r.id) (batch_rows limit now locked rows)

-- The UPDATE of the claim: the table after it, and the rows that RETURNING gives.
unfoldable pub claim_update : ℕ → (ℕ → ℕ) → List ℕ → List FeedRow → List FeedRow
claim_update now draw ids rows = update (λ r. contains r.id ids) (claim_row now draw) rows

unfoldable pub claim_returning : ℕ → (ℕ → ℕ) → List ℕ → List FeedRow → List FeedRow
claim_returning now draw ids rows = map (claim_row now draw) (select (λ r. contains r.id ids) rows)

unfoldable pub claim_due_feeds :
    ℕ → ℕ → (ℕ → ℕ) → (ℕ → Bool) → List FeedRow → Result (List FeedRow × List Feed)
claim_due_feeds limit now draw locked rows =
    let ids = batch_ids limit now locked rows in
    if leb limit 0
    then err (bad_request "scheduler_batch_size_invalid")
    else ok (
      claim_update now draw ids rows,
      map map_feed (sort_by hands_over_before (claim_returning now draw ids rows)),
    )

-- `claimed_at < NOW() - threshold`, which NULL does not pass.
abbrev pub claimed_before : ℕ → ℕ → Option ℕ → Bool
claimed_before threshold_seconds now none = false
claimed_before threshold_seconds now (some t) = ltb (t + threshold_seconds * 1000) now

-- The WHERE of `releaseStuckFeeds`.
unfoldable pub is_stuck : ℕ → ℕ → FeedRow → Bool
is_stuck threshold_seconds now r = claimed_before threshold_seconds now r.claimed_at

unfoldable pub release_row : ℕ → FeedRow → FeedRow
release_row now r = record r { claimed_at = none; next_check_at = now; updated_at = now }

unfoldable pub release_stuck_feeds : ℕ → ℕ → List FeedRow → Result (List FeedRow × ℕ)
release_stuck_feeds threshold_seconds now rows =
    if leb threshold_seconds 0
    then err (bad_request "scheduler_stuck_threshold_invalid")
    else ok (
      update (is_stuck threshold_seconds now) (release_row now) rows,
      length (select (is_stuck threshold_seconds now) rows),
    )

abbrev pub is_owner : Option String → String → Bool
is_owner none owner = true
is_owner (some t) owner = str_eq owner t

-- `isClaimed`: an absent tenant id switches the tenant predicate off.
unfoldable pub is_claimed : ℕ → Option String → List FeedRow → Bool
is_claimed id tenant_id rows = ltb 0 (
    length
      (select (λ r. (r.id == id) && is_some r.claimed_at && is_owner tenant_id r.tenant_id) rows))
