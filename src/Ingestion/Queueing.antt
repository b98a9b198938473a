-- ===== src/Ingestion/Queueing.antt =====
-- What a tick of the scheduler leaves in the queue and in the table.
use feedpulse.Base.{
  ℕ, ◌+◌, ◌≡◌, ap, ◌⊎◌, Bool, List, ◌++◌, arith, All, Memᴰ, length, Result, ok, err,
}
use feedpulse.Feeds.Row.{FeedRow, Feed}
use feedpulse.Feeds.Claim.{claim_due_feeds}
use feedpulse.Ingestion.Scheduling.{
  QueueFault, queue_error, tick_answer, QueuedJob, Tick, Scheduled, schedule_due_feeds,
}
use feedpulse.Ingestion.Enqueues.{IsFresh, IsQueued, MayThrow, IsCounted, enqueue_all_lem}

-- What a tick answers: one enqueue throws, or each claimed feed has a job, and the answer says how many
-- jobs are new and how many feeds had one.
abbrev pub IsReported :
    (ℕ → QueueFault) → List Feed → List QueuedJob → List QueuedJob → Result Scheduled → Type 0
IsReported faults feeds held new (err e) =
    (e ≡ queue_error) × ((f : Feed) × Memᴰ f feeds × MayThrow faults f)
IsReported faults feeds held new (ok count) =
    All (IsQueued held new) feeds
    × (count.scheduled ≡ length new)
    × (count.scheduled + count.deduplicated ≡ length feeds)

reported :
    (faults : ℕ → QueueFault) (feeds : List Feed) (held new : List QueuedJob) (a : Result ℕ)
    → IsCounted faults feeds held new a
    → IsReported faults feeds held new (tick_answer (length feeds) a)
reported faults feeds held new (err e) c = c
reported faults feeds held new (ok d) (q, e) = (q, omega (arith, e), omega (arith, e))

-- A tick whose claim succeeds keeps the claim whatever the queue does, and only adds jobs to
-- those that BullMQ holds, each a live job of the scheduler at its first attempt. For every
-- claimed feed, a job under its id was held before, which may be a failed one that is retained,
-- or is added, unless the queue throws on the feed. The tick fails only if the queue throws on a
-- claimed feed; else each has such a job, and the answer says how many jobs were added and how
-- many feeds had one.
pub schedule_enqueues :
    (faults : ℕ → QueueFault) (batch_size now : ℕ) (draw : ℕ → ℕ) (locked : ℕ → Bool) (s : Tick)
    (rows : List FeedRow) (feeds : List Feed)
    → claim_due_feeds batch_size now draw locked s.feeds ≡ ok (rows, feeds)
    → (new : List QueuedJob) × ((schedule_due_feeds faults batch_size now draw locked s).0
        ≡ record { feeds = rows; jobs = s.jobs ++ new })
      × All (IsFresh now) new
      × All (λ f. IsQueued s.jobs new f ⊎ MayThrow faults f) feeds
      × IsReported faults feeds s.jobs new
          (schedule_due_feeds faults batch_size now draw locked s).1
unfolding schedule_due_feeds
schedule_enqueues faults batch_size now draw locked s rows feeds claimed =
    let all = enqueue_all_lem faults now feeds s.jobs in
    (
      all.new,
      rw claimed (ap (λ jobs. record { feeds = rows; jobs = jobs }) all.jobs_eq),
      all.fresh,
      all.placed,
      rw claimed (reported faults feeds s.jobs all.new _ all.counts),
    )
