-- ===== src/Feeds/RecoveryTests.antt =====
-- Runs of the sweep, the disabling, the insert and the registration of feeds, and an application of
-- each theorem on them.
use feedpulse.Base.{
  starts_with, forbidden, Bool, none, ℕ, ◌≤◌, ◌≡◌, refl, true, false, Option, some, String, List,
  [], ◌∷◌, Memᴰ, count, ok, err, Result, arith, select,
}
use feedpulse.Feeds.Row.{active, paused, FeedRow, Feed, map_feed, is_auto_paused}
use feedpulse.Feeds.Claim.{
  claim_due_feeds, claim_row, is_claimable, is_eligible, release_stuck_feeds, release_row, is_stuck,
}
use feedpulse.Feeds.Editing.{disable, is_of_tenant}
use feedpulse.Base.{◌+◌, conflict, ◌⊎◌, any}
use feedpulse.Feeds.Editing.{create, collides, find_by_id_for_worker}
use feedpulse.Feeds.Registration.{Taken, IsRegistered, IsUnique, create_lem}
use feedpulse.Feeds.Quota.{Registration, tenant_feeds_total, register_feed, is_quota_available}
use feedpulse.Feeds.Registering.{
  Intake, insert_registration, Reach, here, next, passes, passes_beside, inserts,
  registrations_keep_quota,
}
use feedpulse.Feeds.Keys.{HasKey}
use feedpulse.Feeds.Exclusion.{table_after, feeds_of}
use feedpulse.Feeds.Recovery.{stuck_feed_is_claimed_again}
use feedpulse.Feeds.Disabling.{disabled_feed_still_claimable}
use feedpulse.Feeds.Tests.{table, table-HasKey, due_row, paused_row, stuck_row, no_draw, unlocked}

abbrev sweep : Result (List FeedRow × ℕ)
sweep = release_stuck_feeds 300 400000 table

abbrev swept_table : List FeedRow
swept_table = table_after table sweep

sweep_test : sweep ≡ ok (swept_table, 1)
unfolding claim_due_feeds release_stuck_feeds is_stuck is_eligible is_claimable select
sweep_test = refl

stuck_row-listed : Memᴰ stuck_row table
stuck_row-listed = Memᴰ.tail (Memᴰ.tail (Memᴰ.tail (Memᴰ.head refl)))

stuck_row-eligible : is_eligible stuck_row.status stuck_row.last_error ≡ true
unfolding is_eligible
stuck_row-eligible = refl

abbrev reclaim : Result (List FeedRow × List Feed)
reclaim = claim_due_feeds 10 500000 no_draw unlocked swept_table

reclaim_test : reclaim ≡ ok (table_after swept_table reclaim, feeds_of reclaim)
unfolding claim_due_feeds release_stuck_feeds is_stuck is_eligible is_claimable select
reclaim_test = refl

stuck_feed_is_claimed_again_example :
    Memᴰ (map_feed (claim_row 500000 no_draw (release_row 400000 stuck_row))) (feeds_of reclaim)
stuck_feed_is_claimed_again_example =
    stuck_feed_is_claimed_again 300 400000 table swept_table 1 10 500000 no_draw unlocked
      (table_after swept_table reclaim) (feeds_of reclaim) stuck_row 1000 table-HasKey sweep_test
      reclaim_test stuck_row-listed refl (omega arith) stuck_row-eligible (omega arith) refl
      (omega arith)

due_row-listed : Memᴰ due_row table
due_row-listed = Memᴰ.tail (Memᴰ.head refl)

due_row-own : is_of_tenant 1 "acme" due_row ≡ true
unfolding is_of_tenant
due_row-own = refl

unmarked : is_auto_paused due_row.last_error ≡ false
unfolding is_auto_paused
unmarked = refl

paused_row-own : is_of_tenant 3 "acme" paused_row ≡ true
unfolding is_of_tenant
paused_row-own = refl

marked : is_auto_paused paused_row.last_error ≡ true
unfolding is_auto_paused
marked = refl

disabled_feed_still_claimable_example :
    (x : FeedRow) × Memᴰ x (disable 2000 3 "acme" table).0
    × (x.id ≡ paused_row.id)
    × (x.status ≡ paused)
    × (is_claimable 5000 x ≡ true)
disabled_feed_still_claimable_example =
    disabled_feed_still_claimable 2000 3 "acme" table table-HasKey paused_row (Memᴰ.head refl)
      paused_row-own 5000 marked refl (omega arith)

abbrev url_hash : String → Option String
url_hash url = some url

table-IsUnique : IsUnique (due_row ∷ [])
table-IsUnique = (tt, tt)

-- The same url again is refused.
create_test :
    create url_hash 9 6000 "acme" "https://example.org/feed" 60 active (due_row ∷ [])
    ≡ err (conflict "feed_already_exists")
unfolding create any collides
create_test = refl

create_lem_example :
    ((create url_hash 9 6000 "acme" "https://example.org/other" 60 active (due_row ∷ [])
        ≡ err (conflict "feed_already_exists"))
      × Taken url_hash "acme" "https://example.org/other" (due_row ∷ []))
    ⊎ ((r : FeedRow) × (create url_hash 9 6000 "acme" "https://example.org/other" 60 active
            (due_row ∷ [])
          ≡ ok (due_row ∷ r ∷ [], map_feed r))
        × (¬ Taken url_hash "acme" "https://example.org/other" (due_row ∷ []))
        × IsRegistered url_hash "acme" "https://example.org/other" 9 6000 60 active r
        × HasKey (due_row ∷ r ∷ [])
        × IsUnique (due_row ∷ r ∷ [])
        × (find_by_id_for_worker 9 (due_row ∷ r ∷ []) ≡ some (map_feed r)))
create_lem_example =
    create_lem url_hash 9 6000 "acme" "https://example.org/other" 60 active (due_row ∷ []) (tt, tt)
      table-IsUnique (λ e. omega arith, tt)

abbrev by_acme : String → Registration
by_acme url = record { tenant_id = "acme"; url = url; poll_interval_seconds = none; status = none }

abbrev is_https : String → Bool
is_https url = starts_with url "https://"

register_refused_test :
    register_feed is_https url_hash 1 12 6002 (by_acme "https://example.org/c") (due_row ∷ [])
    ≡ err (forbidden "feed_limit_reached")
unfolding register_feed is_quota_available tenant_feeds_total count
register_refused_test = refl

one_feed : tenant_feeds_total "acme" (due_row ∷ []) ≤ 2
unfolding tenant_feeds_total count
one_feed = omega arith

-- Under a cap of two, two requests both count the one feed that is there, and then insert.
abbrev one_there : Intake
one_there = record { rows = due_row ∷ []; passed = 0; overlapping = 0 }

abbrev first_in : List FeedRow
first_in = insert_registration url_hash 10 6000 (by_acme "https://example.org/b") (due_row ∷ [])

abbrev both_in : Intake
both_in = record {
  rows = insert_registration url_hash 12 6002 (by_acme "https://example.org/c") first_in;
  passed = 0;
  overlapping = 1;
}

one_available : is_quota_available 2 "acme" (due_row ∷ []) ≡ true
unfolding is_quota_available tenant_feeds_total count
one_available = refl

overlapped : Reach is_https url_hash 2 "acme" one_there both_in
overlapped =
    next
      (next
        (next (next here (passes "https://example.org/b" refl one_available refl))
          (passes_beside "https://example.org/c" 0 refl one_available refl))
        (inserts 10 6000 (by_acme "https://example.org/b") 1 refl refl))
      (inserts 12 6002 (by_acme "https://example.org/c") 0 refl refl)

both_in_test : tenant_feeds_total "acme" both_in.rows ≡ 3
unfolding tenant_feeds_total count create any collides
both_in_test = refl

registrations_keep_quota_example : tenant_feeds_total "acme" both_in.rows ≤ 2 + 1
registrations_keep_quota_example =
    registrations_keep_quota is_https url_hash 2 "acme" (omega arith) one_feed refl overlapped
