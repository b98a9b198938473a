-- ===== src/Opml/Apply.antt =====
-- modules/opml-imports/application/process-opml-apply-job.use-case.ts: the new items of a confirmed
-- import become feeds. Its statements are one transaction of PostgreSQL, which refuses every statement
-- behind one that failed: `faults id` tells that a statement for the feed of item `id` fails.
use feedpulse.Base.{
  ℕ, suc, ◌+◌, ◌*◌, Bool, ◌&&◌, Option, none, some, List, [], ◌∷◌, ◌++◌, String, str_eq,
  if◌then◌else◌, any, find, coalesce, Result, ok, err, message,
}
use feedpulse.Text.Normalize.{codes}
use feedpulse.Opml.Urls.{UrlPlatform, normalize_feed_url, build_normalized_feed_url_hash}
use feedpulse.Opml.Tables.{ItemRow, mark_item_imported, mark_item_failed}
use feedpulse.Opml.Preview.{is_some_text}
use feedpulse.Feeds.Row.{FeedRow, active}
use feedpulse.Feeds.Editing.{collides, inserted_row}

pub data Upserted : Type 0 where
  -- The feeds with the new row.
  created : List FeedRow → Upserted
  found : ℕ → Upserted
  collision : Upserted
  threw : String → Upserted

-- The row of the INSERT; the jitter is `floor(Math.random() * max(1, configured))` seconds.
abbrev pub imported_feed : ℕ → ℕ → ℕ → String → String → String → FeedRow
imported_feed id now jitter_seconds tenant_id url hash =
    record (inserted_row id now tenant_id url (some hash) 1800 active) {
      next_check_at = now + jitter_seconds * 1000;
    }

abbrev pub has_hash_of : String → String → FeedRow → Bool
has_hash_of tenant_id hash r =
    str_eq r.tenant_id tenant_id && is_some_text hash r.normalized_url_hash

-- `ORDER BY CASE WHEN normalized_url_hash = ... LIMIT 1`
abbrev pub conflicting_feed : String → String → String → List FeedRow → Option FeedRow
conflicting_feed tenant_id url hash feeds =
    coalesce (find (has_hash_of tenant_id hash) feeds)
      (find (λ r. str_eq r.tenant_id tenant_id && str_eq r.url url) feeds)

abbrev pub same_url : String → ℕ → Result String → Upserted
same_url url id (err e) = threw (message e)
same_url url id (ok existing_url) = if str_eq existing_url url then found id else collision

abbrev pub upsert_existing : UrlPlatform → Bool → String → Option FeedRow → Upserted
upsert_existing p allow url none = threw "opml_feed_lookup_after_conflict_failed"
upsert_existing p allow url (some feed) =
    same_url url feed.id (normalize_feed_url p allow (codes feed.url))

-- `upsertFeed`, whose statements do not fail.
unfoldable pub upsert_feed :
    UrlPlatform → Bool → ℕ → ℕ → ℕ → String → String → List FeedRow → Upserted
unfolding find any
upsert_feed p allow id now jitter_seconds tenant_id url feeds =
    let hash = build_normalized_feed_url_hash p url in
    if any (collides tenant_id url (some hash)) feeds
    then upsert_existing p allow url (conflicting_feed tenant_id url hash feeds)
    else created (feeds ++ imported_feed id now jitter_seconds tenant_id url hash ∷ [])

-- The variables of the loop over the candidates.
pub record Progress : Type 0 where
  pub items : List ItemRow
  pub feeds : List FeedRow
  pub next_feed_id : ℕ
  pub imported_items : ℕ
  pub failed_items : ℕ
  pub created_feed_ids : List ℕ

abbrev pub fail_item : ℕ → String → Progress → Progress
fail_item item_id error s = record s {
  items = mark_item_failed item_id error s.items;
  failed_items = s.failed_items + 1;
}

-- What follows from the upsert of one item. A fresh id of the sequence is used up by every INSERT.
unfoldable pub record_upsert : ℕ → Upserted → Progress → Progress
record_upsert item_id (created feeds) s = record s {
  items = mark_item_imported item_id s.next_feed_id s.items;
  feeds = feeds;
  next_feed_id = suc s.next_feed_id;
  imported_items = s.imported_items + 1;
  created_feed_ids = s.created_feed_ids ++ s.next_feed_id ∷ [];
}
record_upsert item_id (found feed_id) s = record s {
  items = mark_item_imported item_id feed_id s.items;
  next_feed_id = suc s.next_feed_id;
  imported_items = s.imported_items + 1;
}
record_upsert item_id collision s =
    record (fail_item item_id "normalized_hash_collision_detected" s) {
      next_feed_id = suc s.next_feed_id;
    }
record_upsert item_id (threw error) s = record (fail_item item_id error s) {
  next_feed_id = suc s.next_feed_id;
}

module _ (p : UrlPlatform) (allow : Bool) (now : ℕ) (jitter : ℕ → ℕ) (faults : ℕ → Bool)
    (tenant_id : String) where
  -- One candidate; none where the transaction is aborted.
  unfoldable pub apply_item : ℕ → Option String → Progress → Option Progress
  unfolding upsert_feed record_upsert
  apply_item item_id none s = some (fail_item item_id "missing_normalized_url" s)
  apply_item item_id (some url) s =
      if faults item_id
      then none
      else some (
          record_upsert item_id
            (upsert_feed p allow s.next_feed_id now (jitter item_id) tenant_id url s.feeds) s)

  abbrev pub then_apply : (Progress → Option Progress) → Option Progress → Option Progress
  then_apply rest none = none
  then_apply rest (some s) = rest s

  unfoldable pub apply_items : List ItemRow → Progress → Option Progress
  unfolding apply_item
  apply_items [] s = some s
  apply_items (item ∷ candidates) s =
      then_apply (λ s'. apply_items candidates s') (apply_item item.id item.normalized_url s)
