-- ===== src/Opml/ApplyJob.antt =====
-- modules/opml-imports/application/process-opml-apply-job.use-case.ts: the job around the loop, with
-- its commit, the fetch jobs of the new feeds, and the catch.
use feedpulse.Base.{
  ℕ, ◌+◌, Bool, true, Option, none, some, List, [], ◌++◌, String, ltb, length, take, if◌then◌else◌,
  Result, ok, err,
}
use feedpulse.Opml.Status.{
  OpmlImportStatus, importing, completed, failed, assert_valid_opml_import_status_transition,
}
use feedpulse.Opml.Urls.{UrlPlatform}
use feedpulse.Opml.Tables.{
  ItemStatus, new, existing, duplicate, invalid, imported, ItemRow, ImportRow, Counters,
  StatusInput, to_status, mark_import_status, get_import_or_throw_for_worker,
  list_new_candidate_items, count_items_by_status,
}
use feedpulse.Opml.Requests.{confirm_input}
use feedpulse.Opml.Apply.{Progress, apply_items}
use feedpulse.Feeds.Row.{FeedRow}

-- `partial_import_failure:N` has the number in the source.
abbrev pub final_status : ℕ → StatusInput
final_status failed_items =
    if ltb 0 failed_items
    then to_status failed (some "partial_import_failure")
    else to_status completed none

unfoldable pub final_counters : ℕ → ℕ → List ItemRow → Counters
final_counters id imported_items items =
    let total = λ (status : ItemStatus). count_items_by_status id status items in
    record {
      total_items = some (
          total new
          + total existing
          + total duplicate
          + total invalid
          + total imported
          + total ItemStatus.failed);
      valid_items = some (total new + total existing + total duplicate + total imported);
      duplicate_items = some (total duplicate);
      existing_items = some (total existing);
      invalid_items = some (total invalid);
      imported_items = some imported_items;
    }

pub record Database : Type 0 where
  pub imports : List ImportRow
  pub items : List ItemRow
  pub feeds : List FeedRow
  -- The feeds that were put into the fetch queue.
  pub fetch_queue : List ℕ

abbrev pub final_input : ℕ → Progress → StatusInput
final_input id s = record (final_status s.failed_items) {
  completed = true;
  counters = final_counters id s.imported_items s.items;
}

-- The catch behind the rollback: what was committed stays.
abbrev pub fail_import : ℕ → ℕ → String → Database → Database
fail_import now id error d = record d {
  imports = mark_import_status id now (to_status failed (some error)) d.imports;
}

-- The fetch jobs of the created feeds, behind the COMMIT. The queue takes them all, or a number of
-- them before it throws into the catch.
unfoldable pub enqueue_created : Option ℕ → ℕ → ℕ → List ℕ → Database → Database
enqueue_created none now id feed_ids d = record d { fetch_queue = d.fetch_queue ++ feed_ids }
enqueue_created (some room) now id feed_ids d =
    let queued : Database = record d { fetch_queue = d.fetch_queue ++ take room feed_ids } in
    if ltb room (length feed_ids) then fail_import now id "enqueue" queued else queued

-- The end of the job: none is an aborted transaction.
unfoldable pub finish_apply : Option ℕ → ℕ → ℕ → Option Progress → Database → Database
unfolding enqueue_created
finish_apply room now id none d = fail_import now id "transaction aborted" d
finish_apply room now id (some s) d = enqueue_created room now id s.created_feed_ids (record {
  imports = mark_import_status id now (final_input id s) d.imports;
  items = s.items;
  feeds = s.feeds;
  fetch_queue = d.fetch_queue;
})

module _ (p : UrlPlatform) (allow : Bool) (now : ℕ) (jitter : ℕ → ℕ) (faults : ℕ → Bool)
    (room : Option ℕ) (next_feed_id id : ℕ) where
  abbrev pub start_of : Database → Progress
  start_of d = record {
    items = d.items;
    feeds = d.feeds;
    next_feed_id = next_feed_id;
    imported_items = 0;
    failed_items = 0;
    created_feed_ids = [];
  }

  -- The job of an import that is marked as importing.
  unfoldable pub apply_import : String → Database → Database
  unfolding finish_apply
  apply_import tenant_id d =
      finish_apply room now id
        (apply_items p allow now jitter faults tenant_id (list_new_candidate_items id d.items)
          (start_of d))
        d

  -- `{ status: 'importing', confirmed: true }`, where the state allows it.
  abbrev pub begin_import : String → Database → Result (Unit {0}) → Result Database
  begin_import tenant_id d (err e) = err e
  begin_import tenant_id d (ok _) = ok (
      apply_import tenant_id
        (record d { imports = mark_import_status id now confirm_input d.imports }))

  unfoldable pub apply_found : String → Database → OpmlImportStatus → Result Database
  unfolding apply_import
  apply_found tenant_id d completed = ok d
  apply_found tenant_id d importing = ok (apply_import tenant_id d)
  apply_found tenant_id d status =
      begin_import tenant_id d (assert_valid_opml_import_status_transition status importing)

  abbrev pub apply_row : Database → Result ImportRow → Result Database
  apply_row d (err e) = err e
  apply_row d (ok r) = apply_found r.tenant_id d r.status

  -- `execute`.
  unfoldable pub process_opml_apply_job : Database → Result Database
  unfolding apply_found
  process_opml_apply_job d = apply_row d (get_import_or_throw_for_worker id d.imports)
