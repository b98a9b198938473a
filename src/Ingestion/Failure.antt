-- ===== src/Ingestion/Failure.antt =====
-- How a failed fetch is classified, and when the feed is tried again:
-- modules/ingestion/application/process-feed-job.use-case.ts. `to_lower_case` is the table of the
-- language's runtime; `Math.random()` is `draw / 2 ^ 53`, and its products are taken without the
-- rounding of a double.
use feedpulse.Base.{
  ℕ, ◌+◌, ◌-◌, ◌*◌, ◌/◌, ◌^◌, min, max, String, Bool, true, false, ◌&&◌, ◌||◌, leb, if◌then◌else◌,
  starts_with,
}
use Prim.Native.String
use feedpulse.Feeds.Row.{FeedStatus, paused, error}
use feedpulse.Feeds.Claim.{draw_range}

abbrev pub auto_paused_error_prefix : String
auto_paused_error_prefix = "auto-paused:"

abbrev pub dns_auto_pause_delay_seconds : ℕ
dns_auto_pause_delay_seconds = 12 * 60 * 60

abbrev pub blocked_auto_pause_delay_seconds : ℕ
blocked_auto_pause_delay_seconds = 14 * 60 * 60

pub data FeedFailureCategory : Type 0 where
  terminal_not_found terminal_invalid_feed terminal_invalid_xml : FeedFailureCategory
  auto_paused_dns auto_paused_blocked transient : FeedFailureCategory

pub record FeedFailureClassification : Type 0 where
  pub category : FeedFailureCategory
  pub status : FeedStatus
  pub next_check_in_seconds : ℕ
  pub last_error : String
  pub should_rethrow : Bool

-- `s.includes(part)`
unfoldable pub includes : String → String → Bool
includes String.[] part = starts_with String.[] part
includes (String.◌∷◌ c s) part = starts_with (String.◌∷◌ c s) part || includes s part

-- `Math.floor(Math.random() * n)`
unfoldable pub random_below : ℕ → ℕ → ℕ
random_below draw n = draw * n / draw_range

-- `capped`: what the backoff is without its jitter.
unfoldable pub capped_backoff_seconds : ℕ → ℕ → ℕ
capped_backoff_seconds poll_interval_seconds error_count =
    let capped_errors = max 1 (min error_count 6) in
    min (poll_interval_seconds * 2 ^ (capped_errors - 1)) (6 * 60 * 60)

unfoldable pub compute_error_backoff_seconds : ℕ → ℕ → ℕ → ℕ
compute_error_backoff_seconds draw poll_interval_seconds error_count =
    let capped = capped_backoff_seconds poll_interval_seconds error_count in
    capped + random_below draw (min (15 * 60) (max 1 (capped * 15 / 100)))

unfoldable pub compute_auto_pause_backoff_seconds : ℕ → ℕ → ℕ
compute_auto_pause_backoff_seconds draw base_delay_seconds =
    base_delay_seconds + random_below draw (30 * 60)

unfoldable pub is_dns_resolution_failure : String → Bool
is_dns_resolution_failure normalized_message =
    includes normalized_message "could not resolve host"
    || includes normalized_message "enotfound"
    || includes normalized_message "eai_again"

unfoldable pub detect_feed_failure_category : (String → String) → String → ℕ → FeedFailureCategory
detect_feed_failure_category to_lower_case message error_count =
    let normalized = to_lower_case message in
    let http404 = includes normalized "status 404" in
    let http410 = includes normalized "status 410" in
    let unsupported = includes normalized "feed not recognized as rss" in
    let hard_xml =
      includes normalized "unable to parse xml"
      || includes normalized "invalid character in"
      || includes normalized "attribute without value" in
    let unsafe_target =
      includes normalized "unsafe_host"
      || includes normalized "unsafe_protocol"
      || includes normalized "feed_url_host_not_allowed" in
    let oversized_body = includes normalized "feed_body_too_large" in
    let repeatedly_forbidden = includes normalized "status 403" && leb 5 error_count in
    let dns_resolution_failure = is_dns_resolution_failure normalized && leb 3 error_count in
    if http404 || http410
    then FeedFailureCategory.terminal_not_found
    else if unsupported || unsafe_target || oversized_body
    then FeedFailureCategory.terminal_invalid_feed
    else if hard_xml
    then FeedFailureCategory.terminal_invalid_xml
    else if repeatedly_forbidden
    then FeedFailureCategory.auto_paused_blocked
    else if dns_resolution_failure
    then FeedFailureCategory.auto_paused_dns
    else FeedFailureCategory.transient

-- `${AUTO_PAUSED_ERROR_PREFIX} ${message}`
abbrev pub auto_paused_error : String → String
auto_paused_error message = String.◌++◌ auto_paused_error_prefix (String.◌++◌ " " message)

-- The branches of `classifyFeedFailure`.
unfoldable pub classify_category :
    ℕ → String → ℕ → ℕ → FeedFailureCategory → FeedFailureClassification
classify_category draw message error_count poll_interval_seconds auto_paused_dns = record {
  category = auto_paused_dns;
  status = paused;
  next_check_in_seconds = compute_auto_pause_backoff_seconds draw dns_auto_pause_delay_seconds;
  last_error = auto_paused_error message;
  should_rethrow = false;
}
classify_category draw message error_count poll_interval_seconds auto_paused_blocked = record {
  category = auto_paused_blocked;
  status = paused;
  next_check_in_seconds = compute_auto_pause_backoff_seconds draw blocked_auto_pause_delay_seconds;
  last_error = auto_paused_error message;
  should_rethrow = false;
}
classify_category draw message error_count poll_interval_seconds transient = record {
  category = transient;
  status = error;
  next_check_in_seconds = compute_error_backoff_seconds draw poll_interval_seconds error_count;
  last_error = message;
  should_rethrow = true;
}
classify_category draw message error_count poll_interval_seconds category = record {
  category = category;
  status = paused;
  next_check_in_seconds = compute_error_backoff_seconds draw poll_interval_seconds error_count;
  last_error = message;
  should_rethrow = false;
}

unfoldable pub classify_feed_failure :
    (String → String) → ℕ → String → ℕ → ℕ → FeedFailureClassification
classify_feed_failure to_lower_case draw message error_count poll_interval_seconds =
    classify_category draw message error_count poll_interval_seconds
      (detect_feed_failure_category to_lower_case message error_count)
