-- ===== src/Ingestion/Scheduling.antt =====
-- The scheduler's tick: ScheduleDueFeedsUseCase and ReleaseStuckFeedsUseCase of
-- modules/ingestion/application over FetchFeedQueue of infrastructure/queue/fetch-feed.queue.ts. The
-- queue is the list of the jobs that BullMQ holds: those that are waiting, delayed or running, and the
-- failed ones that it retains (removeOnFail: 100; completed ones are removed). `getJob` finds either,
-- and `add` under an id that is held does nothing, as BullMQ documents.
use feedpulse.Base.{
  ℕ, ◌+◌, ◌-◌, Bool, true, false, ◌&&◌, Option, none, some, List, [], ◌∷◌, ◌++◌, ltb, ◌==◌,
  if◌then◌else◌, any, length, Result, ok, err, Exception, plain_error,
}
use feedpulse.Feeds.Row.{FeedRow, Feed}
use feedpulse.Feeds.Claim.{claim_due_feeds, release_stuck_feeds}

-- `feed-<id>`, or `feed-<id>-manual-<now>`.
pub data JobId : Type 0 where
  feed_job : ℕ → JobId
  manual_job : ℕ → ℕ → JobId

pub data JobSource : Type 0 where
  scheduler manual : JobSource

pub record FetchFeedJobData : Type 0 where
  pub feed_id : ℕ
  pub queued_at : ℕ
  pub attempt : ℕ
  pub source : JobSource

-- Whether a job is still to be worked off, or has failed for good and is retained.
pub data JobState : Type 0 where
  live retained_failed : JobState

pub record QueuedJob : Type 0 where
  pub job_id : JobId
  pub data_of : FetchFeedJobData
  pub state : JobState

abbrev pub same_job_id : JobId → JobId → Bool
same_job_id (feed_job i) (feed_job j) = i == j
same_job_id (manual_job i t) (manual_job j s) = (i == j) && (t == s)
same_job_id _ _ = false

unfoldable pub build_job_id : ℕ → FetchFeedJobData → JobId
build_job_id now job = elim job.source [
  | scheduler ↦ feed_job job.feed_id
  | manual ↦ manual_job job.feed_id now
]

unfoldable pub get_job : JobId → List QueuedJob → Bool
get_job id jobs = any (λ j. same_job_id j.job_id id) jobs

unfoldable pub add : JobId → FetchFeedJobData → List QueuedJob → List QueuedJob
add id job jobs =
    if get_job id jobs
    then jobs
    else jobs ++ record { job_id = id; data_of = job; state = live } ∷ []

abbrev is_manual : JobSource → Bool
is_manual scheduler = false
is_manual manual = true

-- Which of the two commands of an enqueue throws.
pub data QueueFault : Type 0 where
  answers get_throws add_throws : QueueFault

abbrev pub queue_error : Exception
queue_error = plain_error "queue"

abbrev pub added :
    QueueFault → JobId → FetchFeedJobData → List QueuedJob → List QueuedJob × Result Bool
added add_throws id job jobs = (jobs, err queue_error)
added _ id job jobs = (add id job jobs, ok false)

-- The look-up of a job that is not manual; its answer is whether the job is a duplicate.
abbrev pub looked_up :
    QueueFault → JobId → FetchFeedJobData → List QueuedJob → List QueuedJob × Result Bool
looked_up get_throws id job jobs = (jobs, err queue_error)
looked_up answers id job jobs =
    if get_job id jobs then (jobs, ok true) else (add id job jobs, ok false)
looked_up add_throws id job jobs =
    if get_job id jobs then (jobs, ok true) else (jobs, err queue_error)

-- The jobs after it, and `deduplicated`.
unfoldable pub enqueue :
    QueueFault → ℕ → FetchFeedJobData → List QueuedJob → List QueuedJob × Result Bool
enqueue fault now job jobs =
    let id = build_job_id now job in
    if is_manual job.source then added fault id job jobs else looked_up fault id job jobs

abbrev pub scheduled_job : ℕ → Feed → FetchFeedJobData
scheduled_job now feed = record {
  feed_id = feed.id;
  queued_at = now;
  attempt = 1;
  source = scheduler;
}

abbrev pub counted : Result Bool → Result ℕ → Result ℕ
counted (err e) rest = err e
counted (ok deduplicated) (err e) = err e
counted (ok deduplicated) (ok n) = ok (if deduplicated then n + 1 else n)

-- The enqueues of a batch under `Promise.all`: all are begun and run, and the whole rejects if one
-- throws. The answer is how many were deduplicated. `faults` is by the feed's id.
unfoldable pub enqueue_all :
    (ℕ → QueueFault) → ℕ → List Feed → List QueuedJob → List QueuedJob × Result ℕ
enqueue_all faults now [] jobs = (jobs, ok 0)
enqueue_all faults now (feed ∷ feeds) jobs =
    let first = enqueue (faults feed.id) now (scheduled_job now feed) jobs in
    let rest = enqueue_all faults now feeds first.0 in (rest.0, counted first.1 rest.1)

pub record Tick : Type 0 where
  pub feeds : List FeedRow
  pub jobs : List QueuedJob

pub record Scheduled : Type 0 where
  pub scheduled : ℕ
  pub deduplicated : ℕ

abbrev pub tick_answer : ℕ → Result ℕ → Result Scheduled
tick_answer claimed (err e) = err e
tick_answer claimed (ok deduplicated) =
    ok (record { scheduled = claimed - deduplicated; deduplicated = deduplicated })

abbrev pub schedule_claimed :
    (ℕ → QueueFault) → ℕ → Tick → Result (List FeedRow × List Feed) → Tick × Result Scheduled
schedule_claimed faults now s (err e) = (s, err e)
schedule_claimed faults now s (ok (rows, feeds)) =
    let queued = enqueue_all faults now feeds s.jobs in
    (record { feeds = rows; jobs = queued.0 }, tick_answer (length feeds) queued.1)

-- `ScheduleDueFeedsUseCase.execute`: the table and the queue after it, and its answer. The claim stays
-- where an enqueue throws.
unfoldable pub schedule_due_feeds :
    (ℕ → QueueFault) → ℕ → ℕ → (ℕ → ℕ) → (ℕ → Bool) → Tick → Tick × Result Scheduled
schedule_due_feeds faults batch_size now draw locked s =
    schedule_claimed faults now s (claim_due_feeds batch_size now draw locked s.feeds)

abbrev pub default_stuck_feed_threshold_seconds : ℕ
default_stuck_feed_threshold_seconds = 300

-- `none` is a number that is not finite; a number of zero or less is 0.
unfoldable pub resolve_threshold_seconds : Option ℕ → ℕ
resolve_threshold_seconds none = default_stuck_feed_threshold_seconds
resolve_threshold_seconds (some configured) =
    if ltb 0 configured then configured else default_stuck_feed_threshold_seconds

-- `ReleaseStuckFeedsUseCase.execute`.
unfoldable pub release_stuck : Option ℕ → ℕ → List FeedRow → Result (List FeedRow × ℕ)
release_stuck configured now rows =
    release_stuck_feeds (resolve_threshold_seconds configured) now rows
