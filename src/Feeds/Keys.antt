-- ===== src/Feeds/Keys.antt =====
-- The key of the `feeds` table, which no statement changes.
use feedpulse.Base.{
  ℕ, refl, List, Option, Option-cases, inl, inr, update, DistinctBy, DistinctBy-update, String,
}
use feedpulse.Feeds.Row.{FeedRow, FeedStatus}
use feedpulse.Feeds.Claim.{claim_update, claim_row, release_row, is_stuck}
use feedpulse.Feeds.Editing.{
  FetchUpdate, update_after_fetch, fetched_row, update_feed, edit_row, is_of_tenant,
  find_by_id_for_tenant,
}

-- The primary key holds.
abbrev pub HasKey : List FeedRow → Type 0
HasKey rows = DistinctBy (λ r. r.id) rows

pub claim_update-HasKey :
    (now : ℕ) (draw : ℕ → ℕ) (batch : List ℕ) (rows : List FeedRow)
    → HasKey rows
    → HasKey (claim_update now draw batch rows)
unfolding claim_update claim_row
claim_update-HasKey now draw batch rows =
    DistinctBy-update (λ r. r.id) _ (claim_row now draw) rows (λ r. refl)

pub release-HasKey :
    (threshold now : ℕ) (rows : List FeedRow)
    → HasKey rows
    → HasKey (update (is_stuck threshold now) (release_row now) rows)
unfolding release_row
release-HasKey threshold now rows =
    DistinctBy-update (λ r. r.id) _ (release_row now) rows (λ r. refl)

pub update_after_fetch-HasKey :
    (now : ℕ) (u : FetchUpdate) (rows : List FeedRow)
    → HasKey rows
    → HasKey (update_after_fetch now u rows)
unfolding update_after_fetch fetched_row
update_after_fetch-HasKey now u rows =
    DistinctBy-update (λ r. r.id) _ (fetched_row now u) rows (λ r. refl)

-- An edit leaves the table, or is one UPDATE of the columns that `edit_row` sets.
pub update_feed_cases {ℓ} :
    (P : List FeedRow → Type ℓ) (now id : ℕ) (tenant_id : String) (status : Option FeedStatus)
    (poll : Option ℕ) (rows : List FeedRow)
    → P rows
    → ((s : FeedStatus) (p n : ℕ)
        → P (update (is_of_tenant id tenant_id) (edit_row now s p n) rows))
    → P (update_feed now id tenant_id status poll rows).0
unfolding update_feed
update_feed_cases P now id tenant_id status poll rows h k =
    elim (Option-cases (find_by_id_for_tenant id tenant_id rows)) [
      | inl e ↦ rw (e, update_feed) h
      | inr (current, e) ↦ rw (e, update_feed) (k _ _ _)
    ]

pub update_feed-HasKey :
    (now id : ℕ) (tenant_id : String) (status : Option FeedStatus) (poll : Option ℕ)
    (rows : List FeedRow)
    → HasKey rows
    → HasKey (update_feed now id tenant_id status poll rows).0
unfolding edit_row
update_feed-HasKey now id tenant_id status poll rows k =
    update_feed_cases HasKey now id tenant_id status poll rows k
      λ s p n. DistinctBy-update (λ r. r.id) _ (edit_row now s p n) rows (λ r. refl) k
