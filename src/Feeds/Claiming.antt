-- ===== src/Feeds/Claiming.antt =====
-- What the scheduler gets from `claimDueFeeds`, stated on the returned feeds.
use feedpulse.Base.{
  ℕ, ◌+◌, ◌*◌, ◌≤◌, ◌<◌, min, ◌≡◌, refl, sym, ap, ◌∙◌, subst, ◌≢◌, inl, inr, Bool, true, false, not,
  ◌&&◌, List, map, Memᴰ, contains, mem-contains, select, mem-select, count, length-map, take,
  mem-map, All, All-mem, All-of_mem, All-sort_by, All-map, mem-select_of, mem-sort_by, sort_by,
  length-sort_by, length, take_all, length-select, count-le-length, arith, ok, Bool-cases,
}
use feedpulse.Feeds.Row.{FeedRow, Feed, map_feed}
use feedpulse.Feeds.Claim.{
  claim_update, claim_row, claim_returning, batch_rows, batch_ids, is_claimable, claims_before,
  hands_over_before, claim_due_feeds, claim_jitter_seconds, round_half_even, draw_range,
}
use feedpulse.Feeds.Keys.{HasKey}
use feedpulse.Feeds.Priority.{IsEarlier, claims_before-IsEarlier}
use feedpulse.Feeds.Batch.{left_over, Listed, mem_of_id, Open-of_id, length-claim_returning}

module _ (limit now : ℕ) (draw : ℕ → ℕ) (locked : ℕ → Bool) (rows : List FeedRow)
    (rows' : List FeedRow) (feeds : List Feed) (key : HasKey rows)
    (claimed : claim_due_feeds limit now draw locked rows ≡ ok (rows', feeds)) where
  abbrev pub chosen : List ℕ
  chosen = batch_ids limit now locked rows

  feeds-eq : feeds ≡ map map_feed (sort_by hands_over_before (claim_returning now draw chosen rows))
  unfolding claim_due_feeds
  feeds-eq = ground arith

  pub rows-eq : rows' ≡ claim_update now draw chosen rows
  unfolding claim_due_feeds
  rows-eq = ground arith

  -- What holds of every claimed row holds of every returned feed.
  All-feeds {κ} :
      (P : Feed → Type κ)
      → ((r : FeedRow)
          → Memᴰ r rows
          → contains r.id chosen ≡ true
          → P (map_feed (claim_row now draw r)))
      → All P feeds
  unfolding claim_returning
  All-feeds P h = subst (All P) (sym feeds-eq) (
      All-map P map_feed _ (
        All-sort_by hands_over_before (λ r. P (map_feed r)) _
          (All-map (λ r. P (map_feed r)) (claim_row now draw) _
            (All-of_mem _ _ λ r m. let (n, c) = mem-select _ rows m in h r n c))))

  pub claimed-ids : All (λ f. contains f.id chosen ≡ true) feeds
  unfolding claim_row map_feed
  claimed-ids = All-feeds _ λ r m c. c

  -- A row of the table whose feed is not returned was not chosen.
  not_chosen :
      (r : FeedRow) → Memᴰ r rows → All (λ f. f.id ≢ r.id) feeds → contains r.id chosen ≡ false
  unfolding claim_returning claim_row map_feed
  not_chosen r m h = elim (Bool-cases (contains r.id chosen)) [
    | inr e ↦ e
    | inl e ↦ absurd (
        All-mem (λ f. f.id ≢ r.id) _ (subst (All (λ f. f.id ≢ r.id)) feeds-eq h)
          (mem-map map_feed _ (
            mem-sort_by hands_over_before _
              (mem-map (claim_row now draw) _ (mem-select_of _ rows m e))))
          refl)
  ]

  -- Every returned feed was due, unclaimed, eligible and unlocked, and is returned as the claim
  -- leaves it.
  pub claim-takes_Listed :
      All
        (λ f.
          (r : FeedRow) × Listed limit now locked rows r × (f ≡ map_feed (claim_row now draw r)))
        feeds
  claim-takes_Listed = All-feeds _ λ r m c. (r, (m, Open-of_id limit now locked rows key m c), refl)

  -- The batch is full: as many feeds as there are to claim, up to the limit.
  length-claim :
      length feeds ≡ min limit (count (λ r. is_claimable now r && not (locked r.id)) rows)
  length-claim =
      ap length feeds-eq
      ∙ length-map map_feed _
      ∙ length-sort_by hands_over_before _
      ∙ length-claim_returning limit now locked rows key draw

  -- On a table with distinct ids, a row that could be claimed, due, unclaimed, eligible and
  -- not locked, and whose feed a batch does not return, waits behind every feed of the batch:
  -- each returned feed is what the claim makes of a row of the table whose status comes before
  -- that row's, active before error before paused, or is the same and whose due time is not
  -- later.
  pub claim-takes_first :
      (r : FeedRow)
      → Listed limit now locked rows r
      → All (λ f. f.id ≢ r.id) feeds
      → All
          (λ f. (s : FeedRow) × Memᴰ s rows × (f ≡ map_feed (claim_row now draw s)) × IsEarlier s r)
          feeds
  claim-takes_first r l h = All-feeds _ λ s m c. (
    s,
    m,
    refl,
    claims_before-IsEarlier s r (
        All-mem (λ x. claims_before x r ≡ true) _
          (left_over limit now locked rows r l (not_chosen r l.0 h))
          (mem_of_id limit now locked rows key m c)),
  )

  -- A batch with room for the whole table takes every row that can be claimed.
  pub claim-takes_all :
      (r : FeedRow)
      → Listed limit now locked rows r
      → length rows ≤ limit
      → Memᴰ (map_feed (claim_row now draw r)) feeds
  unfolding claim_returning batch_ids batch_rows
  claim-takes_all r l h = subst (Memᴰ _) (sym feeds-eq) (
      mem-map map_feed _ (
        mem-sort_by hands_over_before _ (
          mem-map (claim_row now draw) _
            (mem-select_of _ rows l.0 (mem-contains _ (mem-map (λ x. x.id) _ in_batch))))))
    where
      waiting : List FeedRow
      waiting = select (λ x. is_claimable now x && not (locked x.id)) rows

      in_batch : Memᴰ r (take limit (sort_by claims_before waiting))
      in_batch =
          rw
            (take_all limit (sort_by claims_before waiting) (
              omega (
                arith,
                length-sort_by claims_before waiting,
                length-select (λ x. is_claimable now x && not (locked x.id)) rows,
                count-le-length (λ x. is_claimable now x && not (locked x.id)) rows,
              )))
            (mem-sort_by claims_before waiting (mem-select_of _ rows l.0 (rw (l.1.0, l.1.1) refl)))

-- Rounding moves a quotient by half a unit at most.
round_half_even-bound :
    (n : ℕ) → 2 * (5 * draw_range * round_half_even n (5 * draw_range)) ≤ 2 * n + 5 * draw_range
unfolding round_half_even
round_half_even-bound n = ground arith

draw_product : (d m : ℕ) → d < draw_range → d * m ≤ draw_range * m
draw_product d m h = grind arith

-- The jitter is at most a fifth of the poll interval, rounded, and at most 300 seconds.
claim_jitter-bounds :
    (d poll : ℕ)
    → d < draw_range
    → (10 * claim_jitter_seconds d poll ≤ 2 * poll + 5) × (claim_jitter_seconds d poll ≤ 300)
unfolding claim_jitter_seconds
claim_jitter-bounds d poll h =
    omega (arith, round_half_even-bound (d * min 1500 poll), draw_product d (min 1500 poll) h)
