-- ===== src/Ingestion/Tests.antt =====
-- Runs of the failure handling, and an application of each theorem on them.
use feedpulse.Base.{
  ℕ, ◌+◌, ◌*◌, ◌/◌, ◌≤◌, min, ◌≡◌, refl, false, not, ◌&&◌, none, some, String, [], ◌∷◌, All, leb,
  arith,
}
use feedpulse.Feeds.Row.{FeedRow, Feed, active, map_feed, is_auto_paused}
use feedpulse.Feeds.Claim.{is_claimable}
use feedpulse.Base.{Result, ok, List}
use feedpulse.Feeds.Claim.{claim_due_feeds}
use feedpulse.Feeds.Exclusion.{table_after, feeds_of}
use feedpulse.Ingestion.Scheduling.{
  feed_job, scheduler, live, QueueFault, answers, QueuedJob, Tick, schedule_due_feeds,
}
use feedpulse.Ingestion.Enqueues.{IsFresh, IsQueued, MayThrow}
use feedpulse.Ingestion.Queueing.{IsReported, schedule_enqueues}
use feedpulse.Base.{or_else, ◌++◌, ◌⊎◌}
use feedpulse.Ingestion.RateLimiter.{
  Runtime, Limiter, default_options, get_domain_key, min_interval_ms, wait_for_slot, Slot,
}
use feedpulse.Ingestion.Spacing.{Lasts, wait_for_slot_lem}
use feedpulse.Ingestion.Failure.{
  detect_feed_failure_category, terminal_not_found, terminal_invalid_feed, auto_paused_dns,
  transient, auto_paused_blocked, includes, is_dns_resolution_failure, capped_backoff_seconds,
  compute_error_backoff_seconds, random_below,
}
use feedpulse.Ingestion.Job.{JobEnv, FeedWorld, handle_failure}
use feedpulse.Ingestion.Backoff.{error_backoff-bounds}
use feedpulse.Ingestion.Retrying.{failure_of, is_terminal, retried_unless_terminal}

abbrev lower : String → String
lower s = s

category_tests :
    (detect_feed_failure_category lower "feed fetch failed with status 404" 1 ≡ terminal_not_found)
    × (detect_feed_failure_category lower "feed_url_unsafe_host" 1 ≡ terminal_invalid_feed)
    × (detect_feed_failure_category lower "getaddrinfo enotfound" 2 ≡ transient)
    × (detect_feed_failure_category lower "getaddrinfo enotfound" 3 ≡ auto_paused_dns)
    × (detect_feed_failure_category lower "status 403" 5 ≡ auto_paused_blocked)
unfolding detect_feed_failure_category includes is_dns_resolution_failure
category_tests = (refl, refl, refl, refl, refl)

-- The longest delay: six hours and 899 seconds.
backoff_test : compute_error_backoff_seconds 9007199254740991 21600 1 ≡ 22499
unfolding compute_error_backoff_seconds capped_backoff_seconds random_below
backoff_test = refl

error_backoff-bounds_example :
    (capped_backoff_seconds 300 3 ≤ compute_error_backoff_seconds 4503599627370496 300 3)
    × (compute_error_backoff_seconds 4503599627370496 300 3
        ≤ capped_backoff_seconds 300 3 + min 899 (capped_backoff_seconds 300 3 * 15 / 100))
    × (compute_error_backoff_seconds 4503599627370496 300 3 ≤ 22499)
error_backoff-bounds_example = error_backoff-bounds 4503599627370496 300 3 (omega arith)

abbrev row : FeedRow
row = record {
  id = 1;
  tenant_id = "acme";
  url = "https://example.org/feed";
  normalized_url_hash = none;
  status = active;
  etag = none;
  last_modified = none;
  last_checked_at = none;
  next_check_at = 0;
  poll_interval_seconds = 300;
  error_count = 2;
  last_error = none;
  avg_items_per_day = none;
  avg_response_ms = none;
  claimed_at = some 0;
  created_at = 0;
  updated_at = 0;
}

abbrev world : FeedWorld
world = record { feeds = row ∷ []; fetch_logs = []; fetch_errors_metric = 0 }

abbrev env : JobEnv
env = record { now = 5000; draw = 0; to_lower_case = lower; print_number = λ n. "500" }

abbrev message : String
message = "getaddrinfo enotfound"

message-unmarked : is_auto_paused (some message) ≡ false
unfolding is_auto_paused
message-unmarked = refl

retried_unless_terminal_example :
    All
      (λ x.
        x.id ≡ (map_feed row).id
        → (t : ℕ)
        → is_claimable t x ≡ (
            leb (5000 + (failure_of env (map_feed row) message).next_check_in_seconds * 1000) t
            && not (is_terminal (failure_of env (map_feed row) message).category)))
      (handle_failure env (map_feed row) message world).0.feeds
retried_unless_terminal_example =
    retried_unless_terminal env (map_feed row) message world message-unmarked

-- Two rows are due; the job of the first is still queued.
abbrev waiting_row : FeedRow
waiting_row = record row { claimed_at = none }

abbrev second_row : FeedRow
second_row = record row { id = 2; claimed_at = none }

abbrev held_job : QueuedJob
held_job = record {
  job_id = feed_job 1;
  data_of = record { feed_id = 1; queued_at = 0; attempt = 1; source = scheduler };
  state = live;
}

abbrev tick : Tick
tick = record { feeds = waiting_row ∷ second_row ∷ []; jobs = held_job ∷ [] }

abbrev claim : Result (List FeedRow × List Feed)
claim = claim_due_feeds 10 5000 (λ id. 0) (λ id. false) tick.feeds

claim_test : claim ≡ ok (table_after tick.feeds claim, feeds_of claim)
unfolding claim_due_feeds
claim_test = refl

-- The queue answers.
abbrev no_faults : ℕ → QueueFault
no_faults id = answers

schedule_enqueues_example :
    (new : List QueuedJob) × ((schedule_due_feeds no_faults 10 5000 (λ id. 0) (λ id. false) tick).0
      ≡ record { feeds = table_after tick.feeds claim; jobs = tick.jobs ++ new })
    × All (IsFresh 5000) new
    × All (λ f. IsQueued tick.jobs new f ⊎ MayThrow no_faults f) (feeds_of claim)
    × IsReported no_faults
        (feeds_of claim)
        tick.jobs
        new
        (schedule_due_feeds no_faults 10 5000 (λ id. 0) (λ id. false) tick).1
schedule_enqueues_example =
    schedule_enqueues no_faults 10 5000 (λ id. 0) (λ id. false) tick (table_after tick.feeds claim)
      (feeds_of claim) claim_test

-- A domain whose backoff ran until 9000 and whose last request was at 8000.
abbrev plain_runtime : Runtime
plain_runtime = record { hostname = λ url. some url; parse_int = λ s. none; parse_date = λ s. none }

abbrev limiter : Limiter
limiter = record { last_request_at = λ k. some 8000; backoff_until = λ k. some 9000 }

-- Sleeps that end on time: the first takes a second, the second none.
abbrev punctual : ℕ → ℕ → ℕ
punctual now ms = now + ms

punctual-Lasts : Lasts punctual
punctual-Lasts now ms = omega arith

abbrev slot : Slot
slot = wait_for_slot plain_runtime default_options punctual 8000 "example.org" limiter

wait_for_slot_lem_example :
    (or_else (limiter.backoff_until (get_domain_key plain_runtime "example.org")) 0 ≤ slot.ready)
    × (or_else (limiter.last_request_at (get_domain_key plain_runtime "example.org")) 0
          + min_interval_ms default_options
        ≤ slot.ready)
    × (slot.limiter.last_request_at (get_domain_key plain_runtime "example.org") ≡ some slot.ready)
wait_for_slot_lem_example =
    wait_for_slot_lem plain_runtime default_options "example.org" limiter punctual punctual-Lasts
      8000
