-- ===== src/Ingestion/Retrying.antt =====
-- Which feeds the scheduler takes again after a failed fetch.
use feedpulse.Base.{
  ℕ, ◌+◌, ◌*◌, ◌≡◌, refl, sym, ap, ◌∙◌, subst, Bool, true, false, not, ◌&&◌, none, some, String,
  All, All-of_mem, mem-update, ==_iff, Bool-cases, inl, inr, leb, ◌==◌, if◌then◌else◌, starts_with,
}
use Prim.Native.String
use mathlib.Core.Bool.{false≢true}
use text.Mathlib.TextPositions.{starts_with-append}
use feedpulse.Feeds.Row.{FeedRow, Feed, is_auto_paused}
use feedpulse.Feeds.Claim.{is_claimable, is_eligible}
use feedpulse.Feeds.Editing.{update_after_fetch, fetched_row, FetchUpdate}
use feedpulse.Ingestion.Failure.{
  FeedFailureCategory, terminal_not_found, terminal_invalid_feed, terminal_invalid_xml,
  auto_paused_dns, auto_paused_blocked, transient, FeedFailureClassification, classify_category,
  classify_feed_failure, detect_feed_failure_category, auto_paused_error, auto_paused_error_prefix,
}
use feedpulse.Ingestion.Job.{JobEnv, FeedWorld, handle_failure}

abbrev pub is_terminal : FeedFailureCategory → Bool
is_terminal terminal_not_found = true
is_terminal terminal_invalid_feed = true
is_terminal terminal_invalid_xml = true
is_terminal _ = false

-- What the catch finds out about a failure of a feed.
abbrev pub failure_of : JobEnv → Feed → String → FeedFailureClassification
failure_of env feed message =
    classify_feed_failure env.to_lower_case env.draw message (feed.error_count + 1)
      feed.poll_interval_seconds

starts_with-auto_paused_error :
    (message : String) → starts_with (auto_paused_error message) auto_paused_error_prefix ≡ true
starts_with-auto_paused_error message =
    starts_with-append auto_paused_error_prefix (String.◌++◌ " " message)

-- The mark that the claim query reads is on the row exactly if the failure is not terminal.
eligible-classify_category :
    (draw : ℕ) (message : String) (e poll : ℕ) (c : FeedFailureCategory)
    → is_auto_paused (some message) ≡ false
    → is_eligible
        (classify_category draw message e poll c).status
        (some (classify_category draw message e poll c).last_error)
      ≡ not (is_terminal (classify_category draw message e poll c).category)
unfolding is_eligible classify_category is_auto_paused
eligible-classify_category draw message e poll terminal_not_found h = h
eligible-classify_category draw message e poll terminal_invalid_feed h = h
eligible-classify_category draw message e poll terminal_invalid_xml h = h
eligible-classify_category draw message e poll auto_paused_dns h =
    starts_with-auto_paused_error message
eligible-classify_category draw message e poll auto_paused_blocked h =
    starts_with-auto_paused_error message
eligible-classify_category draw message e poll transient h = refl

abbrev failure_update : JobEnv → Feed → String → FetchUpdate
failure_update env feed message = record {
  feed_id = feed.id;
  etag = none;
  last_modified = none;
  status = (failure_of env feed message).status;
  error_count = feed.error_count + 1;
  last_error = some (failure_of env feed message).last_error;
  avg_response_ms = none;
  next_check_at = some (env.now + (failure_of env feed message).next_check_in_seconds * 1000);
}

handle_failure-feeds :
    (env : JobEnv) (feed : Feed) (message : String) (w : FeedWorld)
    → (handle_failure env feed message w).0.feeds
      ≡ update_after_fetch env.now (failure_update env feed message) w.feeds
unfolding handle_failure
handle_failure-feeds env feed message w =
    elim (Bool-cases (failure_of env feed message).should_rethrow) [
      | inl e ↦ rw e refl
      | inr e ↦ rw e refl
    ]

-- The id under a test of it.
hit : (i j : ℕ) → i ≡ j → (i == j) ≡ true
hit i j e = (==_iff i j).1 e

fetched-row :
    (now : ℕ) (u : FetchUpdate) (r x : FeedRow)
    → x ≡ (if r.id == u.feed_id then fetched_row now u r else r)
    → x.id ≡ u.feed_id
    → x ≡ fetched_row now u r
fetched-row now u r x f e = elim (Bool-cases (r.id == u.feed_id)) [
  | inl b ↦ rw b at f
  | inr b ↦
      let kept : x ≡ r = rw b at f in
      absurd (false≢true (sym b ∙ hit r.id u.feed_id (ap (λ y. y.id) (sym kept) ∙ e)))
]

drop_true : (b c : Bool) → ((b && true) && c) ≡ (b && c)
drop_true true c = refl
drop_true false c = refl

claimable-failed :
    (env : JobEnv) (feed : Feed) (message : String) (r : FeedRow) (t : ℕ)
    → is_auto_paused (some message) ≡ false
    → is_claimable t (fetched_row env.now (failure_update env feed message) r) ≡ (
        leb (env.now + (failure_of env feed message).next_check_in_seconds * 1000) t
        && not (is_terminal (failure_of env feed message).category))
unfolding is_claimable fetched_row classify_feed_failure
claimable-failed env feed message r t unmarked =
    drop_true (leb (env.now + (failure_of env feed message).next_check_in_seconds * 1000) t) _
    ∙ ap (λ b. leb (env.now + (failure_of env feed message).next_check_in_seconds * 1000) t && b)
        (eligible-classify_category env.draw message (feed.error_count + 1)
          feed.poll_interval_seconds
          (detect_feed_failure_category env.to_lower_case message (feed.error_count + 1)) unmarked)

-- After a failed fetch, whatever the message and the count of errors, the scheduler can claim the
-- feed's row exactly from the instant that the backoff or the pause gives, unless the failure is a
-- terminal one (404, 410, no feed, an unsafe host, a body too large, broken XML): then never. The
-- message must not itself begin with the mark "auto-paused:".
pub retried_unless_terminal :
    (env : JobEnv) (feed : Feed) (message : String) (w : FeedWorld)
    → is_auto_paused (some message) ≡ false
    → All
        (λ x.
          x.id ≡ feed.id
          → (t : ℕ)
          → is_claimable t x ≡ (
              leb (env.now + (failure_of env feed message).next_check_in_seconds * 1000) t
              && not (is_terminal (failure_of env feed message).category)))
        (handle_failure env feed message w).0.feeds
unfolding update_after_fetch
retried_unless_terminal env feed message w unmarked =
    subst (All _) (sym (handle_failure-feeds env feed message w)) (
      All-of_mem _ _ λ x m e t.
        let u = failure_update env feed message in
        let (r, n, f) = mem-update (λ r. r.id == feed.id) (fetched_row env.now u) w.feeds m in
        let fetched = fetched-row env.now u r x f e in
        rw fetched (claimable-failed env feed message r t unmarked))
