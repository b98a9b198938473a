-- ===== src/Feeds/Tests.antt =====
-- Runs of the feed table's operations, and an application of each theorem on them.
use feedpulse.Base.{
  ℕ, ◌≡◌, refl, ◌≢◌, Bool, false, Option, none, some, String, List, [], ◌∷◌, Memᴰ, All, ok, err,
  bad_request, Result, arith, contains, map, sort_by, select,
}
use feedpulse.Feeds.Row.{FeedStatus, active, paused, error, FeedRow, Feed, map_feed, is_auto_paused}
use feedpulse.Feeds.Claim.{
  claim_due_feeds, claim_row, is_claimable, is_eligible, claims_before, claim_returning, batch_ids,
  batch_rows, hands_over_before, release_stuck_feeds,
}
use feedpulse.Feeds.Editing.{FetchUpdate, disable}
use feedpulse.Feeds.Keys.{HasKey}
use feedpulse.Feeds.Batch.{Listed}
use feedpulse.Feeds.Priority.{IsEarlier}
use feedpulse.Feeds.Claiming.{claim-takes_first}
use feedpulse.Feeds.Exclusion.{
  Event, claims, sweeps, finishes, edits, table_after, feeds_of, run, batches, Held,
  claim_exclusive,
}

table_operations : Unit {0}
unfolding claim_due_feeds release_stuck_feeds disable is_eligible is_claimable sort_by
    claim_returning select contains batch_ids batch_rows is_auto_paused claims_before
    hands_over_before claim_row map_feed
table_operations = tt

abbrev a_row : ℕ → FeedStatus → Option String → ℕ → Option ℕ → FeedRow
a_row id status last_error next_check_at claimed_at = record {
  id = id;
  tenant_id = "acme";
  url = "https://example.org/feed";
  normalized_url_hash = none;
  status = status;
  etag = none;
  last_modified = none;
  last_checked_at = none;
  next_check_at = next_check_at;
  poll_interval_seconds = 60;
  error_count = 0;
  last_error = last_error;
  avg_items_per_day = none;
  avg_response_ms = none;
  claimed_at = claimed_at;
  created_at = 0;
  updated_at = 0;
}

abbrev pub due_row : FeedRow
due_row = a_row 1 active none 1000 none

abbrev failing_row : FeedRow
failing_row = a_row 2 error (some "timeout") 500 none

abbrev pub paused_row : FeedRow
paused_row = a_row 3 paused (some "auto-paused: enotfound") 700 none

abbrev pub stuck_row : FeedRow
stuck_row = a_row 4 active none 900000 (some 1000)

abbrev pub table : List FeedRow
table = paused_row ∷ due_row ∷ failing_row ∷ stuck_row ∷ []

abbrev pub no_draw : ℕ → ℕ
no_draw id = 0

abbrev pub unlocked : ℕ → Bool
unlocked id = false

abbrev claimed : Result (List FeedRow × List Feed)
claimed = claim_due_feeds 2 5000 no_draw unlocked table

pub table-HasKey : HasKey table
table-HasKey = (
  (λ e. omega arith, (λ e. omega arith, (λ e. omega arith, tt))),
  ((λ e. omega arith, (λ e. omega arith, tt)), ((λ e. omega arith, tt), (tt, tt))),
)

abbrev claimed_table : List FeedRow
claimed_table = table_after table claimed

abbrev claimed_feeds : List Feed
claimed_feeds = feeds_of claimed

claim_test : claimed ≡ ok (claimed_table, claimed_feeds)
unfolding table_operations
claim_test = refl

-- The active feed before the failing one; no room for the auto-paused one.
claim_ids : map (λ f. f.id) claimed_feeds ≡ 1 ∷ 2 ∷ []
unfolding table_operations
claim_ids = refl

refused_claim :
    claim_due_feeds 0 5000 no_draw unlocked table ≡ err (bad_request "scheduler_batch_size_invalid")
unfolding table_operations
refused_claim = refl

abbrev first_feed : Feed
first_feed = map_feed (claim_row 5000 no_draw due_row)

first_feed-listed : Memᴰ first_feed claimed_feeds
unfolding table_operations
first_feed-listed = Memᴰ.head refl

abbrev report : FetchUpdate
report = record {
  feed_id = 2;
  etag = none;
  last_modified = none;
  status = active;
  error_count = 0;
  last_error = none;
  avg_response_ms = none;
  next_check_at = none;
}

abbrev later : List Event
later =
    edits 6000 1 "acme" (some active) (some 30)
    ∷ sweeps 300 300000
    ∷ finishes 6000 report
    ∷ claims 10 200000 no_draw unlocked
    ∷ []

claim_exclusive_example :
    All (All (λ g. g.id ≢ first_feed.id)) (batches claimed_table later)
    × Held first_feed.id 5000 (run claimed_table later)
unfolding map_feed claim_row
claim_exclusive_example =
    claim_exclusive 2 5000 no_draw unlocked table claimed_table claimed_feeds first_feed later
      table-HasKey claim_test first_feed-listed (tt, (omega arith, (λ e. omega arith, (tt, tt))))

paused_row-Listed : Listed 2 5000 unlocked table paused_row
unfolding table_operations
paused_row-Listed = (Memᴰ.head refl, (refl, refl))

paused_row-left : All (λ f. f.id ≢ paused_row.id) claimed_feeds
unfolding table_operations
paused_row-left = (λ e. omega arith, (λ e. omega arith, tt))

claim-takes_first_example :
    All
      (λ f.
        (s : FeedRow) × Memᴰ s table
        × (f ≡ map_feed (claim_row 5000 no_draw s))
        × IsEarlier s paused_row)
      claimed_feeds
claim-takes_first_example =
    claim-takes_first 2 5000 no_draw unlocked table claimed_table claimed_feeds table-HasKey
      claim_test paused_row paused_row-Listed paused_row-left

abbrev whole : Result (List FeedRow × List Feed)
whole = claim_due_feeds 10 5000 no_draw unlocked table

whole_test : whole ≡ ok (table_after table whole, feeds_of whole)
unfolding table_operations
whole_test = refl

whole-Listed : Listed 10 5000 unlocked table paused_row
unfolding table_operations
whole-Listed = (Memᴰ.head refl, (refl, refl))
