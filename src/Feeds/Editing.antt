-- ===== src/Feeds/Editing.antt =====
-- The other writes to the `feeds` table: `create`, `update`, `disable` and `updateAfterFetch` of
-- modules/feeds/feeds.repository.ts, and its lookups.
use feedpulse.Base.{
  ℕ, ◌+◌, ◌*◌, String, Bool, true, false, not, ◌&&◌, ◌||◌, Option, none, some, List, [], ◌∷◌, ◌++◌,
  ◌==◌, if◌then◌else◌, update, find, any, or_else, coalesce, is_some, str_eq, Result, ok, err,
  conflict,
}
use mathlib.Core.Option
use feedpulse.Feeds.Row.{FeedStatus, active, paused, FeedRow, Feed, map_feed}

-- Two hashes that a unique index holds to be the same: NULLs are distinct.
abbrev pub same_hash : Option String → Option String → Bool
same_hash (some a) (some b) = str_eq a b
same_hash _ _ = false

-- A unique index over (tenant_id, url) and one over (tenant_id, normalized_url_hash).
unfoldable pub collides : String → String → Option String → FeedRow → Bool
collides tenant_id url hash r =
    str_eq r.tenant_id tenant_id && (str_eq r.url url || same_hash r.normalized_url_hash hash)

-- The row of the INSERT at the fresh id of the table's sequence.
abbrev pub inserted_row : ℕ → ℕ → String → String → Option String → ℕ → FeedStatus → FeedRow
inserted_row id now tenant_id url hash poll_interval_seconds status = record {
  id = id;
  tenant_id = tenant_id;
  url = url;
  normalized_url_hash = hash;
  status = status;
  etag = none;
  last_modified = none;
  last_checked_at = none;
  next_check_at = now;
  poll_interval_seconds = poll_interval_seconds;
  error_count = 0;
  last_error = none;
  avg_items_per_day = none;
  avg_response_ms = none;
  claimed_at = none;
  created_at = now;
  updated_at = now;
}

-- `INSERT ... RETURNING *`. `hash` is `buildNormalizedUrlHashOrNull`.
unfoldable pub create :
    (String → Option String)
    → ℕ
    → ℕ
    → String
    → String
    → ℕ
    → FeedStatus
    → List FeedRow
    → Result (List FeedRow × Feed)
create hash id now tenant_id url poll_interval_seconds status rows =
    let row = inserted_row id now tenant_id url (hash url) poll_interval_seconds status in
    if any (collides tenant_id url (hash url)) rows
    then err (conflict "feed_already_exists")
    else ok (rows ++ row ∷ [], map_feed row)

unfoldable pub find_by_id_for_worker : ℕ → List FeedRow → Option Feed
find_by_id_for_worker id rows = Option.map map_feed (find (λ r. r.id == id) rows)

-- `WHERE id = $1 AND tenant_id = $2`.
unfoldable pub is_of_tenant : ℕ → String → FeedRow → Bool
is_of_tenant id tenant_id r = (r.id == id) && str_eq r.tenant_id tenant_id

unfoldable pub find_by_id_for_tenant : ℕ → String → List FeedRow → Option Feed
find_by_id_for_tenant id tenant_id rows =
    Option.map map_feed (find (is_of_tenant id tenant_id) rows)

unfoldable pub find_by_id : ℕ → Option String → List FeedRow → Option Feed
find_by_id id none rows = find_by_id_for_worker id rows
find_by_id id (some tenant_id) rows = find_by_id_for_tenant id tenant_id rows

abbrev pub is_active : FeedStatus → Bool
is_active active = true
is_active _ = false

-- The `nextCheckAt` that `update` computes.
unfoldable pub next_check_after_edit : ℕ → FeedStatus → ℕ → Feed → ℕ
next_check_after_edit now status poll_interval_seconds current =
    if is_active status && not (is_active current.status)
    then now
    else if is_active status && not (poll_interval_seconds == current.poll_interval_seconds)
    then now + poll_interval_seconds * 1000
    else current.next_check_at

unfoldable pub edit_row : ℕ → FeedStatus → ℕ → ℕ → FeedRow → FeedRow
edit_row now status poll_interval_seconds next_check_at r = record r {
  status = status;
  poll_interval_seconds = poll_interval_seconds;
  next_check_at = next_check_at;
  updated_at = now;
}

-- `update`: the table after it, and the row that RETURNING gives.
unfoldable pub update_feed :
    ℕ → ℕ → String → Option FeedStatus → Option ℕ → List FeedRow → List FeedRow × Option Feed
update_feed now id tenant_id status poll rows = elim (find_by_id_for_tenant id tenant_id rows) [
  | none ↦ (rows, none)
  | some current ↦
      let new_status : FeedStatus = or_else status current.status in
      let new_poll : ℕ = or_else poll current.poll_interval_seconds in
      let edit : FeedRow → FeedRow =
        edit_row now new_status new_poll (next_check_after_edit now new_status new_poll current) in
      let rows' : List FeedRow = update (is_of_tenant id tenant_id) edit rows in
      (rows', find_by_id_for_tenant id tenant_id rows')
]

unfoldable pub disable : ℕ → ℕ → String → List FeedRow → List FeedRow × Bool
disable now id tenant_id rows =
    let (rows', updated) = update_feed now id tenant_id (some paused) none rows in
    (rows', is_some updated)

-- The argument of `updateAfterFetch`. An absent `nextCheckAt` means now.
pub record FetchUpdate : Type 0 where
  pub feed_id : ℕ
  pub etag : Option String
  pub last_modified : Option String
  pub status : FeedStatus
  pub error_count : ℕ
  pub last_error : Option String
  pub avg_response_ms : Option ℕ
  pub next_check_at : Option ℕ

unfoldable pub fetched_row : ℕ → FetchUpdate → FeedRow → FeedRow
fetched_row now u r = record r {
  etag = coalesce u.etag r.etag;
  last_modified = coalesce u.last_modified r.last_modified;
  status = u.status;
  error_count = u.error_count;
  last_error = u.last_error;
  avg_response_ms = coalesce u.avg_response_ms r.avg_response_ms;
  last_checked_at = some now;
  next_check_at = or_else u.next_check_at now;
  claimed_at = none;
  updated_at = now;
}

unfoldable pub update_after_fetch : ℕ → FetchUpdate → List FeedRow → List FeedRow
update_after_fetch now u rows = update (λ r. r.id == u.feed_id) (fetched_row now u) rows
