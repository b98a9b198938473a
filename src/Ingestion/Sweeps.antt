-- ===== src/Ingestion/Sweeps.antt =====
-- The sweep of stuck claims, `ReleaseStuckFeedsUseCase`, under any configured threshold.
use feedpulse.Base.{
  ℕ, ◌+◌, ◌*◌, ◌≤◌, ◌≡◌, refl, false, Option, none, some, List, arith, All, length, ok, update,
  select, leb,
}
use feedpulse.Feeds.Row.{FeedRow}
use feedpulse.Feeds.Claim.{release_stuck_feeds, is_stuck, release_row}
use feedpulse.Feeds.Recovery.{release-leaves_none}
use feedpulse.Ingestion.Scheduling.{resolve_threshold_seconds, release_stuck}

threshold-positive : (configured : Option ℕ) → leb (resolve_threshold_seconds configured) 0 ≡ false
unfolding resolve_threshold_seconds
threshold-positive none = refl
threshold-positive (some n) = ground arith

release-total :
    (threshold now : ℕ) (rows : List FeedRow)
    → leb threshold 0 ≡ false
    → (rows' : List FeedRow) × (released : ℕ) × (release_stuck_feeds threshold now rows
        ≡ ok (rows', released))
unfolding release_stuck_feeds
release-total threshold now rows h = (
  update (is_stuck threshold now) (release_row now) rows,
  length (select (is_stuck threshold now) rows),
  rw h refl,
)

-- The sweep of a tick succeeds whatever threshold is configured, and leaves no claim older than the
-- threshold that it resolves to.
release_stuck_lem :
    (configured : Option ℕ) (now : ℕ) (rows : List FeedRow)
    → (rows' : List FeedRow) × (released : ℕ) × (release_stuck configured now rows
        ≡ ok (rows', released))
      × All
          (λ r.
            (t : ℕ) → r.claimed_at ≡ some t → now ≤ t + resolve_threshold_seconds configured * 1000)
          rows'
unfolding release_stuck
release_stuck_lem configured now rows =
    let threshold = resolve_threshold_seconds configured in
    let (rows', released, e) = release-total threshold now rows (threshold-positive configured) in
    (rows', released, e, (release-leaves_none threshold now rows rows' released e).0)
