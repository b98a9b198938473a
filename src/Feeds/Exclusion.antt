-- ===== src/Feeds/Exclusion.antt =====
-- A claim is exclusive: while it is in force no other claim hands the same feed out, whatever the
-- schedulers, the sweeps, the workers of other feeds and the tenants do meanwhile.
use feedpulse.Base.{
  ℕ, ◌+◌, ◌*◌, ◌≤◌, ◌≡◌, sym, ap, ◌∙◌, subst, ◌≢◌, inl, inr, Bool, true, Option, some, String, List,
  [], ◌∷◌, Memᴰ, contains, All, All-mem, All-of_mem, All-imp, mem-update, Result, ok, err,
  Bool-cases, Result-cases, arith, if◌then◌else◌, leb, All-update, ==_iff,
}
use mathlib.Core.Bool.{false≢true}
use feedpulse.Feeds.Row.{FeedStatus, FeedRow, Feed, map_feed}
use feedpulse.Feeds.Claim.{
  claim_update, claim_row, batch_ids, is_claimable, claim_due_feeds, is_stuck, release_row,
  release_stuck_feeds,
}
use feedpulse.Feeds.Editing.{FetchUpdate, update_after_fetch, fetched_row, update_feed, edit_row}
use feedpulse.Feeds.Keys.{
  HasKey, claim_update-HasKey, release-HasKey, update_after_fetch-HasKey, update_feed-HasKey,
  update_feed_cases,
}
use feedpulse.Feeds.Batch.{Open-of_id}
use feedpulse.Feeds.Claiming.{claim-takes_Listed, claimed-ids, rows-eq}

-- A statement on the table, by any process: its arguments, the time first where it has one.
pub data Event : Type 0 where
  claims : (limit now : ℕ) (draw : ℕ → ℕ) (locked : ℕ → Bool) → Event
  sweeps : (threshold_seconds now : ℕ) → Event
  finishes : (now : ℕ) → FetchUpdate → Event
  edits : (now id : ℕ) → String → Option FeedStatus → Option ℕ → Event

-- A statement that throws leaves the table as it was.
abbrev pub table_after {ℓ} : {A : Type ℓ} → List FeedRow → Result (List FeedRow × A) → List FeedRow
table_after rows (ok (rows', _)) = rows'
table_after rows (err _) = rows

abbrev pub feeds_of : Result (List FeedRow × List Feed) → List Feed
feeds_of (ok (_, feeds)) = feeds
feeds_of (err _) = []

pub step : List FeedRow → Event → List FeedRow
step rows (claims limit now draw locked) =
    table_after rows (claim_due_feeds limit now draw locked rows)
step rows (sweeps threshold now) = table_after rows (release_stuck_feeds threshold now rows)
step rows (finishes now u) = update_after_fetch now u rows
step rows (edits now id tenant_id status poll) = (update_feed now id tenant_id status poll rows).0

-- The feeds that a statement hands to the workers.
pub handed : List FeedRow → Event → List Feed
handed rows (claims limit now draw locked) = feeds_of (claim_due_feeds limit now draw locked rows)
handed rows _ = []

pub run : List FeedRow → List Event → List FeedRow
run rows [] = rows
run rows (e ∷ es) = run (step rows e) es

pub batches : List FeedRow → List Event → List (List Feed)
batches rows [] = []
batches rows (e ∷ es) = handed rows e ∷ batches (step rows e) es

-- The feed `id` is claimed since `c`.
abbrev pub Held : ℕ → ℕ → List FeedRow → Type 0
Held id c rows = All (λ r. r.id ≡ id → r.claimed_at ≡ some c) rows

-- What may not end the claim of `id` taken at `c`: a report of its own worker, or a sweep whose
-- threshold the claim has passed.
abbrev pub Harmless : ℕ → ℕ → Event → Type 0
Harmless id c (claims limit now draw locked) = Unit {0}
Harmless id c (sweeps threshold now) = now ≤ c + threshold * 1000
Harmless id c (finishes now u) = u.feed_id ≢ id
Harmless id c (edits now i tenant_id status poll) = Unit {0}

step-HasKey : (rows : List FeedRow) (e : Event) → HasKey rows → HasKey (step rows e)
unfolding step release_stuck_feeds
step-HasKey rows (claims limit now draw locked) k =
    elim (Result-cases (claim_due_feeds limit now draw locked rows)) [
      | inl ((rows', feeds), e) ↦ rw e (
          subst HasKey (sym (rows-eq limit now draw locked rows rows' feeds k e))
            (claim_update-HasKey now draw _ rows k))
      | inr (x, e) ↦ rw e k
    ]
step-HasKey rows (sweeps threshold now) k = ground (arith, release-HasKey threshold now rows k)
step-HasKey rows (finishes now u) k = update_after_fetch-HasKey now u rows k
step-HasKey rows (edits now id tenant_id status poll) k =
    update_feed-HasKey now id tenant_id status poll rows k

module _ (id c : ℕ) where
  held_not_claimable :
      (now : ℕ) (r : FeedRow)
      → (r.id ≡ id → r.claimed_at ≡ some c)
      → is_claimable now r ≡ true
      → r.id ≢ id
  unfolding is_claimable
  held_not_claimable now r h k e = ground (arith, h e)

  claim_update-Held :
      (limit now : ℕ) (draw : ℕ → ℕ) (locked : ℕ → Bool) (rows : List FeedRow)
      → HasKey rows
      → Held id c rows
      → Held id c (claim_update now draw (batch_ids limit now locked rows) rows)
  unfolding claim_update claim_row
  claim_update-Held limit now draw locked rows k h = All-of_mem _ _ λ x m.
      let (r, n, e) = mem-update _ (claim_row now draw) rows m in
      let old = All-mem (λ r. r.id ≡ id → r.claimed_at ≡ some c) rows h n in kept r x n old e
    where
      kept :
          (r x : FeedRow)
          → Memᴰ r rows
          → (r.id ≡ id → r.claimed_at ≡ some c)
          → x
            ≡ (if contains r.id (batch_ids limit now locked rows) then claim_row now draw r else r)
          → x.id ≡ id
          → x.claimed_at ≡ some c
      kept r x n old e q = elim (Bool-cases (contains r.id (batch_ids limit now locked rows))) [
        | inr b ↦
            let same : x ≡ r = rw b at e in
            subst (λ y. y.claimed_at ≡ some c) (sym same) (old (ap (λ y. y.id) (sym same) ∙ q))
        | inl b ↦
            let new : x ≡ claim_row now draw r = rw b at e in
            absurd (
              held_not_claimable now r old (Open-of_id limit now locked rows k n b).0
                (ap (λ y. y.id) (sym new) ∙ q))
      ]

  pub step-Held :
      (rows : List FeedRow) (e : Event)
      → HasKey rows
      → Harmless id c e
      → Held id c rows
      → Held id c (step rows e)
  unfolding step release_stuck_feeds is_stuck release_row update_after_fetch fetched_row edit_row
  step-Held rows (claims limit now draw locked) k s h =
      elim (Result-cases (claim_due_feeds limit now draw locked rows)) [
        | inl ((rows', feeds), e) ↦ rw e (
            subst (Held id c) (sym (rows-eq limit now draw locked rows rows' feeds k e))
              (claim_update-Held limit now draw locked rows k h))
        | inr (x, e) ↦ rw e h
      ]
  step-Held rows (sweeps threshold now) k s h = elim (Bool-cases (leb threshold 0)) [
    | inl e ↦ rw e h
    | inr e ↦ rw e (All-update _ _ (release_row now) rows h (λ r old stuck. ground (arith, old)))
  ]
  step-Held rows (finishes now u) k s h =
      All-update _ _ (fetched_row now u) rows h
        (λ r old mine e. absurd (s (sym ((==_iff r.id u.feed_id).0 mine) ∙ e)))
  step-Held rows (edits now i tenant_id status poll) k s h =
      update_feed_cases (Held id c) now i tenant_id status poll rows h
        λ t p n. All-update _ _ (edit_row now t p n) rows h (λ r old _ e. old e)

  handed-ne :
      (rows : List FeedRow) (e : Event)
      → HasKey rows
      → Held id c rows
      → All (λ f. f.id ≢ id) (handed rows e)
  unfolding handed claim_row map_feed
  handed-ne rows (claims limit now draw locked) k h =
      elim (Result-cases (claim_due_feeds limit now draw locked rows)) [
        | inr (x, e) ↦ rw e tt
        | inl ((rows', feeds), e) ↦ rw e (
            All-imp _ (λ f. f.id ≢ id)
              (λ f t q.
                held_not_claimable now t.0
                  (All-mem (λ r. r.id ≡ id → r.claimed_at ≡ some c) rows h t.1.0) t.1.1.0
                  (ap (λ g. g.id) (sym t.2) ∙ q))
              feeds (claim-takes_Listed limit now draw locked rows rows' feeds k e))
      ]
  handed-ne rows _ k h = tt

  run-Held :
      (rows : List FeedRow) (es : List Event)
      → HasKey rows
      → All (Harmless id c) es
      → Held id c rows
      → All (All (λ f. f.id ≢ id)) (batches rows es) × Held id c (run rows es)
  unfolding run batches
  run-Held rows [] k s h = (tt, h)
  run-Held rows (e ∷ es) k s h =
      let (rest, last) =
        run-Held (step rows e) es (step-HasKey rows e k) s.1 (step-Held rows e k s.0 h) in
      ((handed-ne rows e k h, rest), last)

-- A claim puts its mark on the rows of the feeds that it returns.
claim-Held :
    (limit now : ℕ) (draw : ℕ → ℕ) (locked : ℕ → Bool) (rows rows' : List FeedRow)
    (feeds : List Feed)
    → HasKey rows
    → claim_due_feeds limit now draw locked rows ≡ ok (rows', feeds)
    → (f : Feed) → Memᴰ f feeds
    → Held f.id now rows'
unfolding claim_update claim_row
claim-Held limit now draw locked rows rows' feeds k e f m =
    subst (Held f.id now) (sym (rows-eq limit now draw locked rows rows' feeds k e)) (
      All-of_mem _ _
        λ x n. let (r, _, s) = mem-update _ (claim_row now draw) rows n in marked r x s)
  where
    marked :
        (r x : FeedRow)
        → x ≡ (if contains r.id (batch_ids limit now locked rows) then claim_row now draw r else r)
        → x.id ≡ f.id
        → x.claimed_at ≡ some now
    marked r x s q = elim (Bool-cases (contains r.id (batch_ids limit now locked rows))) [
      | inl b ↦ let new : x ≡ claim_row now draw r = rw b at s in ap (λ y. y.claimed_at) new
      | inr b ↦
          let same : x ≡ r = rw b at s in
          let id_eq : r.id ≡ f.id = ap (λ y. y.id) (sym same) ∙ q in
          absurd (
            false≢true (
              sym b
              ∙ ap (λ i. contains i (batch_ids limit now locked rows)) id_eq
              ∙ All-mem (λ g. contains g.id (batch_ids limit now locked rows) ≡ true) feeds
                  (claimed-ids limit now draw locked rows rows' feeds k e) m))
    ]

-- While a claim is in force, no claim hands its feed out again: from a claim that returns `f` at
-- `now`, through any sequence of claims, edits, reports of other feeds' workers, and sweeps that the
-- claim has not outlived, no later batch holds `f`, and its row keeps the mark.
pub claim_exclusive :
    (limit now : ℕ) (draw : ℕ → ℕ) (locked : ℕ → Bool) (rows rows' : List FeedRow)
    (feeds : List Feed) (f : Feed) (es : List Event)
    → HasKey rows
    → claim_due_feeds limit now draw locked rows ≡ ok (rows', feeds)
    → Memᴰ f feeds
    → All (Harmless f.id now) es
    → All (All (λ g. g.id ≢ f.id)) (batches rows' es) × Held f.id now (run rows' es)
claim_exclusive limit now draw locked rows rows' feeds f es k e m s =
    run-Held f.id now rows' es
      (subst HasKey (sym (rows-eq limit now draw locked rows rows' feeds k e))
        (claim_update-HasKey now draw _ rows k))
      s (claim-Held limit now draw locked rows rows' feeds k e f m)
