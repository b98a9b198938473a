-- ===== src/Feeds/Recovery.antt =====
-- A worker that dies leaves its claim behind; the sweep takes it back, and the next claim that has
-- room hands the feed out again.
use feedpulse.Base.{
  ℕ, ◌+◌, ◌*◌, ◌≤◌, ◌<◌, ◌≡◌, sym, ap, subst, Bool, true, false, some, List, Memᴰ, length, All,
  All-of_mem, length-select, count, update, mem-update, mem-update_of, length-update, ok, arith,
  if◌then◌else◌,
}
use feedpulse.Feeds.Row.{FeedRow, Feed, map_feed}
use feedpulse.Feeds.Claim.{
  is_claimable, is_eligible, claimed_before, is_stuck, release_row, release_stuck_feeds, claim_row,
  claim_due_feeds,
}
use feedpulse.Feeds.Keys.{HasKey, release-HasKey}
use feedpulse.Feeds.Claiming.{claim-takes_all}

module _ (threshold now : ℕ) (rows rows' : List FeedRow) (released : ℕ)
    (swept : release_stuck_feeds threshold now rows ≡ ok (rows', released)) where
  swept-eq : rows' ≡ update (is_stuck threshold now) (release_row now) rows
  unfolding release_stuck_feeds
  swept-eq = ground arith

  -- After the sweep no claim is older than the threshold, and the number that it returns is that of
  -- the claims that were.
  pub release-leaves_none :
      All (λ r. (t : ℕ) → r.claimed_at ≡ some t → now ≤ t + threshold * 1000) rows'
      × (released ≡ count (λ r. claimed_before threshold now r.claimed_at) rows)
  unfolding release_stuck_feeds is_stuck release_row
  release-leaves_none = (
    subst (All _) (sym swept-eq) (
        All-of_mem _ _ λ x m t c.
          let (r, _, e) = mem-update (is_stuck threshold now) (release_row now) rows m in
          fresh r x e t c),
    counted,
  )
    where
      counted : released ≡ count (is_stuck threshold now) rows
      counted = rw (← length-select (is_stuck threshold now) rows) (ground arith)

      fresh :
          (r x : FeedRow)
          → x ≡ (if is_stuck threshold now r then release_row now r else r)
          → (t : ℕ) → x.claimed_at ≡ some t
          → now ≤ t + threshold * 1000
      fresh r x e t c = ground arith

  -- A claim older than the threshold is gone, and its feed is due from now on.
  release-recovers :
      (r : FeedRow) (c : ℕ)
      → Memᴰ r rows
      → r.claimed_at ≡ some c
      → c + threshold * 1000 < now
      → is_eligible r.status r.last_error ≡ true
      → Memᴰ (release_row now r) rows'
        × ((t : ℕ) → now ≤ t → is_claimable t (release_row now r) ≡ true)
  unfolding release_row is_claimable
  release-recovers r c m e old fit = (
    subst (Memᴰ _) (sym swept-eq)
        (rw stuck at (mem-update_of (is_stuck threshold now) (release_row now) rows m)),
    λ t h. rw fit (ground arith),
  )
    where
      stuck : is_stuck threshold now r ≡ true
      stuck = unfold is_stuck in ground arith

-- On a table with distinct ids: a feed whose status and last error let it be claimed, whose row
-- is not locked, and whose claim is older than the threshold when the sweep runs is handed out
-- by a claim that comes right after the sweep, at the same time or later, if the limit of that
-- claim is at least the number of rows of the table.
pub stuck_feed_is_claimed_again :
    (threshold now : ℕ) (rows swept : List FeedRow) (released : ℕ) (limit later : ℕ) (draw : ℕ → ℕ)
    (locked : ℕ → Bool) (rows' : List FeedRow) (feeds : List Feed) (r : FeedRow) (c : ℕ)
    → HasKey rows
    → release_stuck_feeds threshold now rows ≡ ok (swept, released)
    → claim_due_feeds limit later draw locked swept ≡ ok (rows', feeds)
    → Memᴰ r rows
    → r.claimed_at ≡ some c
    → c + threshold * 1000 < now
    → is_eligible r.status r.last_error ≡ true
    → now ≤ later
    → locked r.id ≡ false
    → length rows ≤ limit
    → Memᴰ (map_feed (claim_row later draw (release_row now r))) feeds
unfolding release_row
stuck_feed_is_claimed_again threshold now rows swept released limit later draw locked rows' feeds r
      c k s e m held old fit h free room =
    let (there, due) = release-recovers threshold now rows swept released s r c m held old fit in
    claim-takes_all limit later draw locked swept rows' feeds
      (subst HasKey (sym (swept-eq threshold now rows swept released s))
        (release-HasKey threshold now rows k))
      e (release_row now r) (there, (due later h, free))
      (omega (
        arith,
        ap length (swept-eq threshold now rows swept released s),
        length-update (is_stuck threshold now) (release_row now) rows,
      ))
