-- ===== src/Feeds/Priority.antt =====
-- The order in which feeds wait for a claim, apart from the query that computes it.
use feedpulse.Base.{ℕ, ◌≤◌, ◌≡◌, refl, true, ◌⊎◌, inl, inr, arith, ltb, leb, ◌||◌, ◌&&◌, ◌==◌}
use feedpulse.Feeds.Row.{FeedStatus, FeedRow}
use feedpulse.Feeds.Row.{case_priority}
use feedpulse.Feeds.Claim.{claims_before}

-- An active feed comes before one in error, and both before a paused one.
pub data Precedes : FeedStatus → FeedStatus → Type 0 where
  active_error : Precedes FeedStatus.active FeedStatus.error
  active_paused : Precedes FeedStatus.active FeedStatus.paused
  error_paused : Precedes FeedStatus.error FeedStatus.paused

-- The status decides, and between equal statuses the earlier due time, which two feeds may share.
abbrev pub IsEarlier : FeedRow → FeedRow → Type 0
IsEarlier r s =
    Precedes r.status s.status ⊎ ((r.status ≡ s.status) × (r.next_check_at ≤ s.next_check_at))

by_status :
    (a b : FeedStatus) (m n : ℕ)
    → (ltb (case_priority a) (case_priority b) || ((case_priority a == case_priority b) && leb m n))
      ≡ true
    → Precedes a b ⊎ ((a ≡ b) × (m ≤ n))
by_status FeedStatus.active FeedStatus.active m n h = inr (refl, ground (arith, h))
by_status FeedStatus.active FeedStatus.error m n h = inl active_error
by_status FeedStatus.active FeedStatus.paused m n h = inl active_paused
by_status FeedStatus.error FeedStatus.active m n h = ground (arith, h)
by_status FeedStatus.error FeedStatus.error m n h = inr (refl, ground (arith, h))
by_status FeedStatus.error FeedStatus.paused m n h = inl error_paused
by_status FeedStatus.paused FeedStatus.active m n h = ground (arith, h)
by_status FeedStatus.paused FeedStatus.error m n h = ground (arith, h)
by_status FeedStatus.paused FeedStatus.paused m n h = inr (refl, ground (arith, h))

pub claims_before-IsEarlier : (r s : FeedRow) → claims_before r s ≡ true → IsEarlier r s
unfolding claims_before
claims_before-IsEarlier r s h = by_status r.status s.status r.next_check_at s.next_check_at h
