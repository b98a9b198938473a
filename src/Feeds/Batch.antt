-- ===== src/Feeds/Batch.antt =====
-- What one claim takes: only claimable rows, at most the limit, none left over that comes first.
use feedpulse.Base.{
  ℕ, min, ◌≡◌, refl, sym, ap, ◌∙◌, subst, inl, inr, Bool, true, false, not, ◌&&◌, List, [], ◌∷◌,
  map, Memᴰ, contains, contains-mem, mem-contains, select, mem-select, count, length-select,
  length-map, length-take, length-sort_by, eq_of_same_key, take, drop, mem-map, All, All-mem,
  All-of_mem, All-imp, All-sort_by, All-take, All-map, mem-append, mem-select_of, mem-sort_by,
  sort_by, ◌++◌, IsSortedBy, sort_by-IsSortedBy, take-before-drop, take-append-drop, length, arith,
  DistinctBy-select, DistinctBy-sort_by, DistinctBy-take, Distinct-map, count-contains, &&-eq-true,
}
use mathlib.Core.Bool.{false≢true}
use feedpulse.Feeds.Row.{FeedRow}
use feedpulse.Feeds.Claim.{claim_returning, batch_rows, batch_ids, is_claimable, claims_before}
use feedpulse.Feeds.Keys.{HasKey}

claims_before-total : (r s : FeedRow) → claims_before r s ≡ false → claims_before s r ≡ true
unfolding claims_before
claims_before-total r s h = ground arith

claims_before_trans :
    (r s t : FeedRow)
    → claims_before r s ≡ true
    → claims_before s t ≡ true
    → claims_before r t ≡ true
unfolding claims_before
claims_before_trans r s t h k = ground arith

module _ (limit now : ℕ) (locked : ℕ → Bool) (rows : List FeedRow) where
  -- What a claim may take at this moment.
  abbrev pub Open : FeedRow → Type 0
  Open r = (is_claimable now r ≡ true) × (locked r.id ≡ false)

  abbrev pub Listed : FeedRow → Type 0
  Listed r = Memᴰ r rows × Open r

  pub batch_rows-Listed : All Listed (batch_rows limit now locked rows)
  unfolding batch_rows
  batch_rows-Listed = All-take _ limit _ (
      All-sort_by claims_before Listed _ (
        All-of_mem Listed _ λ r m.
          let (n, h) = mem-select _ rows m in
          let (c, l) = &&-eq-true (is_claimable now r) (not (locked r.id)) h in
          (n, (c, ground arith))))

  length-batch_rows :
      length (batch_rows limit now locked rows)
      ≡ min limit (count (λ r. is_claimable now r && not (locked r.id)) rows)
  unfolding batch_rows
  length-batch_rows =
      length-take limit _ ∙ ap (min limit) (length-sort_by claims_before _ ∙ length-select _ rows)

  queue : List FeedRow
  queue = sort_by claims_before (select (λ x. is_claimable now x && not (locked x.id)) rows)

  queue-IsSortedBy : IsSortedBy claims_before queue
  unfolding queue
  queue-IsSortedBy = sort_by-IsSortedBy claims_before claims_before-total claims_before_trans _

  -- A row that could have been claimed and was not stands behind the whole batch.
  pub left_over :
      (r : FeedRow)
      → Listed r
      → contains r.id (batch_ids limit now locked rows) ≡ false
      → All (λ s. claims_before s r ≡ true) (batch_rows limit now locked rows)
  unfolding batch_rows batch_ids queue
  left_over r l miss = elim (mem-append (take limit queue) (drop limit queue) split) [
    | inl m ↦ absurd (false≢true (sym miss ∙ mem-contains _ (mem-map (λ x. x.id) _ m)))
    | inr m ↦
        All-imp (λ s. All (λ y. claims_before s y ≡ true) (drop limit queue)) _
          (λ s a. All-mem (λ y. claims_before s y ≡ true) _ a m) _
          (take-before-drop claims_before limit queue queue-IsSortedBy)
  ]
    where
      split : Memᴰ r (take limit queue ++ drop limit queue)
      split =
          subst (Memᴰ r) (sym (take-append-drop limit queue))
            (mem-sort_by claims_before _ (mem-select_of _ rows l.0 (rw (l.1.0, l.1.1) refl)))

  module _ (key : HasKey rows) where
    batch_rows-HasKey : HasKey (batch_rows limit now locked rows)
    unfolding batch_rows
    batch_rows-HasKey =
        DistinctBy-take _ limit _
          (DistinctBy-sort_by _ claims_before _ (DistinctBy-select _ _ rows key))

    -- A row of the table whose id is in the batch is the row that was chosen.
    pub mem_of_id :
        {r : FeedRow}
        → Memᴰ r rows
        → contains r.id (batch_ids limit now locked rows) ≡ true
        → Memᴰ r (batch_rows limit now locked rows)
    unfolding batch_ids
    mem_of_id {r} m h =
        chosen (batch_rows limit now locked rows) batch_rows-Listed (contains-mem r.id _ h)
      where
        chosen : (bs : List FeedRow) → All Listed bs → Memᴰ r.id (map (λ b. b.id) bs) → Memᴰ r bs
        chosen [] l n = elim n [ ]
        chosen (b ∷ bs) l (Memᴰ.head e) = Memᴰ.head (eq_of_same_key (λ x. x.id) rows key m l.0.0 e)
        chosen (b ∷ bs) l (Memᴰ.tail n) = Memᴰ.tail (chosen bs l.1 n)

    pub Open-of_id :
        {r : FeedRow}
        → Memᴰ r rows
        → contains r.id (batch_ids limit now locked rows) ≡ true
        → Open r
    Open-of_id m h = (All-mem Listed _ batch_rows-Listed (mem_of_id m h)).1

    pub length-claim_returning :
        (draw : ℕ → ℕ)
        → length (claim_returning now draw (batch_ids limit now locked rows) rows)
          ≡ min limit (count (λ r. is_claimable now r && not (locked r.id)) rows)
    unfolding claim_returning batch_ids
    length-claim_returning draw =
        length-map _ _
        ∙ length-select _ rows
        ∙ count-contains (λ r. r.id) _ rows key (Distinct-map (λ r. r.id) _ batch_rows-HasKey)
            (All-map (λ b. Memᴰ b (map (λ r. r.id) rows)) (λ r. r.id) _
              (All-imp Listed _ (λ r l. mem-map (λ r. r.id) rows l.0) _ batch_rows-Listed))
        ∙ length-map _ _
        ∙ length-batch_rows
