-- ===== src/Ingestion/Job.antt =====
-- `execute` of ProcessFeedJobUseCase up to the parse of a body: the lookup, the 304 branch, the HTTP
-- errors, and the outer catch (modules/ingestion/application/process-feed-job.use-case.ts).
use feedpulse.Base.{
  ℕ, ◌+◌, ◌*◌, String, Bool, true, false, Option, none, some, List, [], ◌∷◌, ◌++◌, if◌then◌else◌,
  Result, ok, err, plain_error,
}
use Prim.Native.String
use feedpulse.Feeds.Row.{active, FeedRow, Feed}
use feedpulse.Feeds.Editing.{update_after_fetch}
use feedpulse.Ingestion.Failure.{FeedFailureClassification, classify_feed_failure}

pub record FetchFeedResponse : Type 0 where
  pub status_code : ℕ
  pub etag : Option String
  pub last_modified : Option String
  pub body : String
  pub duration_ms : ℕ

-- A row of `fetch_logs`.
pub record FetchLog : Type 0 where
  pub feed_id : ℕ
  pub tenant_id : String
  pub status_code : Option ℕ
  pub response_time_ms : Option ℕ
  pub error : Bool
  pub error_message : Option String

pub record JobResult : Type 0 where
  pub inserted_entries : ℕ
  pub created_alerts : ℕ
  pub status_code : ℕ

pub record FeedWorld : Type 0 where
  pub feeds : List FeedRow
  pub fetch_logs : List FetchLog
  pub fetch_errors_metric : ℕ

-- What surrounds one job: the clock in milliseconds, the random draw, and the runtime's tables.
pub record JobEnv : Type 0 where
  pub now : ℕ
  pub draw : ℕ
  pub to_lower_case : String → String
  pub print_number : ℕ → String

-- The outer catch of `execute`: `error` is rethrown or swallowed.
unfoldable pub handle_failure : JobEnv → Feed → String → FeedWorld → FeedWorld × Result JobResult
handle_failure env feed message w =
    let next_error_count = feed.error_count + 1 in
    let classification : FeedFailureClassification =
      classify_feed_failure env.to_lower_case env.draw message next_error_count
        feed.poll_interval_seconds in
    let w' : FeedWorld = record {
      feeds =
          update_after_fetch env.now
            (record {
              feed_id = feed.id;
              etag = none;
              last_modified = none;
              status = classification.status;
              error_count = next_error_count;
              last_error = some classification.last_error;
              avg_response_ms = none;
              next_check_at = some (env.now + classification.next_check_in_seconds * 1000);
            })
            w.feeds;
      fetch_logs =
          w.fetch_logs
          ++ record {
            feed_id = feed.id;
            tenant_id = feed.tenant_id;
            status_code = none;
            response_time_ms = none;
            error = true;
            error_message = some message;
          }
            ∷ [];
      fetch_errors_metric = w.fetch_errors_metric + 1;
    } in
    if classification.should_rethrow
    then (w', err (plain_error message))
    else (w', ok (record { inserted_entries = 0; created_alerts = 0; status_code = 0 }))

-- The branch of a 304.
unfoldable pub handle_not_modified :
    JobEnv → Feed → FetchFeedResponse → FeedWorld → FeedWorld × Result JobResult
handle_not_modified env feed response w = (
  record w {
    feeds =
        update_after_fetch env.now
          (record {
            feed_id = feed.id;
            etag = response.etag;
            last_modified = response.last_modified;
            status = active;
            error_count = 0;
            last_error = none;
            avg_response_ms = some response.duration_ms;
            next_check_at = some (env.now + feed.poll_interval_seconds * 1000);
          })
          w.feeds;
    fetch_logs =
        w.fetch_logs
        ++ record {
          feed_id = feed.id;
          tenant_id = feed.tenant_id;
          status_code = some response.status_code;
          response_time_ms = some response.duration_ms;
          error = false;
          error_message = none;
        }
          ∷ [];
  },
  ok (record { inserted_entries = 0; created_alerts = 0; status_code = response.status_code }),
)

-- `Feed fetch failed with status ${response.statusCode}`
abbrev pub http_error : JobEnv → ℕ → String
http_error env status_code =
    String.◌++◌ "Feed fetch failed with status " (env.print_number status_code)
