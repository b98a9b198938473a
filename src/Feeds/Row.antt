-- ===== src/Feeds/Row.antt =====
-- The row of the `feeds` table and the `Feed` that the repository makes of it
-- (modules/feeds/feeds.repository.ts, modules/feeds/domain/feed.entity.ts). Times are milliseconds
-- since the epoch; an ISO string is kept as the instant that it denotes.
use feedpulse.Base.{ℕ, String, Bool, false, Option, none, some, starts_with}

pub data FeedStatus : Type 0 where
  active paused error : FeedStatus

pub record FeedRow : Type 0 where
  pub id : ℕ
  pub tenant_id : String
  pub url : String
  pub normalized_url_hash : Option String
  pub status : FeedStatus
  pub etag : Option String
  pub last_modified : Option String
  pub last_checked_at : Option ℕ
  pub next_check_at : ℕ
  pub poll_interval_seconds : ℕ
  pub error_count : ℕ
  pub last_error : Option String
  pub avg_items_per_day : Option ℕ
  pub avg_response_ms : Option ℕ
  pub claimed_at : Option ℕ
  pub created_at : ℕ
  pub updated_at : ℕ

pub record Feed : Type 0 where
  pub id : ℕ
  pub tenant_id : String
  pub url : String
  pub status : FeedStatus
  pub etag : Option String
  pub last_modified : Option String
  pub last_checked_at : Option ℕ
  pub next_check_at : ℕ
  pub poll_interval_seconds : ℕ
  pub error_count : ℕ
  pub last_error : Option String
  pub avg_items_per_day : Option ℕ
  pub avg_response_ms : Option ℕ
  pub created_at : ℕ
  pub updated_at : ℕ

unfoldable pub map_feed : FeedRow → Feed
map_feed row = record {
  id = row.id;
  tenant_id = row.tenant_id;
  url = row.url;
  status = row.status;
  etag = row.etag;
  last_modified = row.last_modified;
  last_checked_at = row.last_checked_at;
  next_check_at = row.next_check_at;
  poll_interval_seconds = row.poll_interval_seconds;
  error_count = row.error_count;
  last_error = row.last_error;
  avg_items_per_day = row.avg_items_per_day;
  avg_response_ms = row.avg_response_ms;
  created_at = row.created_at;
  updated_at = row.updated_at;
}

-- `CLAIM_PRIORITY_BY_STATUS`, which the comparator of the claimed rows reads.
abbrev pub claim_priority_by_status : FeedStatus → ℕ
claim_priority_by_status active = 0
claim_priority_by_status error = 1
claim_priority_by_status paused = 2

-- The CASE of the claim query's ORDER BY.
abbrev pub case_priority : FeedStatus → ℕ
case_priority active = 0
case_priority error = 1
case_priority _ = 2

abbrev pub max_claim_jitter_seconds : ℕ
max_claim_jitter_seconds = 300

-- `last_error LIKE 'auto-paused:%'`; NULL is not like anything.
unfoldable pub is_auto_paused : Option String → Bool
is_auto_paused none = false
is_auto_paused (some message) = starts_with message "auto-paused:"
