-- ===== src/Feeds/Validation.antt =====
-- modules/feeds/application/validate-feed-url.use-case.ts: a url is probed before it is registered.
-- The network, the feed parser and the platform's dates and urls are arguments; texts are UTF-16.
use feedpulse.Base.{
  ℕ, Bool, true, false, not, ◌&&◌, ◌||◌, Option, none, some, List, [], ◌∷◌, ◌++◌, String, str_eq,
  starts_with, ltb, ◌==◌, if◌then◌else◌, ◌⊎◌, inl, inr, length, take, map, min, max, coalesce,
}
use Prim.Native.String.{compare}
use Prim.Native.Nat.{Ordering}
use feedpulse.Text.Normalize.{codes, trim}
use feedpulse.Text.Characters.{includes}
use feedpulse.Http.UrlSafety.{
  Url, UrlSafetyError, unsafe_protocol, unsafe_host, assert_safe_public_url,
}
use feedpulse.Http.SafeFetch.{
  Thrown, FetchError, unsafe, too_many_redirects, invalid_redirect, body_too_large, thrown,
  Response, RequestInit, Request, SafeFetchResult, default_max_redirects, safe_fetch,
}
use feedpulse.Http.Charset.{Decoders, read_body_with_limit}

pub data ValidateFeedUrlErrorCode : Type 0 where
  dns_failure connection_refused tls_error timeout protocol_not_safe host_not_safe
        redirects_exceeded redirect_invalid response_too_large parse_error :
      ValidateFeedUrlErrorCode
  http : ℕ → ValidateFeedUrlErrorCode
  unknown : ValidateFeedUrlErrorCode

pub record ValidatedFeedSampleItem : Type 0 where
  pub title : Option (List ℕ)
  pub link : Option String
  pub published_at : Option String

pub record ValidateFeedUrlResult : Type 0 where
  pub reachable : Bool
  pub status_code : Option ℕ
  pub latency_ms : ℕ
  pub feed_title : Option (List ℕ)
  pub item_count : Option ℕ
  pub latest_item_published_at : Option String
  pub sample_items : List ValidatedFeedSampleItem
  pub error : Option ValidateFeedUrlErrorCode

-- What the parser gives; a field that is no text is none.
pub record ParsedItem : Type 0 where
  pub title : Option (List ℕ)
  pub link : Option (List ℕ)
  pub iso_date : Option String
  pub pub_date : Option String

pub record ParsedFeed : Type 0 where
  pub title : Option (List ℕ)
  pub items : List ParsedItem

pub record Platform : Type 0 where
  pub lower : List ℕ → List ℕ
  -- `new URL(text)` and its `toString()`.
  pub parse_url : List ℕ → Option Url
  pub href : Url → String
  -- `new Date(text).toISOString()`; none where the date is invalid.
  pub to_iso_string : String → Option String
  pub parse_feed : List ℕ → Option ParsedFeed
  pub decoders : Decoders

abbrev pub max_echoed_text_length : ℕ
max_echoed_text_length = 300

abbrev pub sample_item_count : ℕ
sample_item_count = 3

abbrev pub validated_link_max_length : ℕ
validated_link_max_length = 2048

-- `clampTimeout` of a configured number: none where it is not finite.
unfoldable pub clamp_timeout : Option ℕ → ℕ
clamp_timeout none = 10000
clamp_timeout (some configured) = if configured == 0 then 10000 else min 10000 (max 1000 configured)

abbrev pub is_below_400 : Option ℕ → Bool
is_below_400 none = false
is_below_400 (some status) = ltb 0 status && ltb status 400

unfoldable pub empty_result : ValidateFeedUrlErrorCode → ℕ → Option ℕ → ValidateFeedUrlResult
empty_result error latency_ms status_code = record {
  reachable = is_below_400 status_code;
  status_code = status_code;
  latency_ms = latency_ms;
  feed_title = none;
  item_count = none;
  latest_item_published_at = none;
  sample_items = [];
  error = some error;
}

abbrev pub is_code : Option String → String → Bool
is_code none code = false
is_code (some c) code = str_eq c code

abbrev pub is_tls_code : Option String → Bool
is_tls_code none = false
is_tls_code (some c) = starts_with c "ERR_TLS"

-- `mapFetchError` behind the classes of the program's own errors.
unfoldable pub map_thrown : (List ℕ → List ℕ) → Thrown → ValidateFeedUrlErrorCode
map_thrown lower t =
    let message = lower t.message in
    let code = t.cause_code in
    if not t.is_error
    then unknown
    else if str_eq t.name "AbortError" || str_eq t.name "TimeoutError"
    then timeout
    else if is_code code "ENOTFOUND"
        || is_code code "EAI_AGAIN"
        || includes message (codes "getaddrinfo")
    then dns_failure
    else if is_code code "ECONNREFUSED" || includes message (codes "econnrefused")
    then connection_refused
    else if is_tls_code code
        || is_code code "CERT_HAS_EXPIRED"
        || is_code code "DEPTH_ZERO_SELF_SIGNED_CERT"
        || is_code code "UNABLE_TO_VERIFY_LEAF_SIGNATURE"
        || includes message (codes "certificate")
        || includes message (codes "tls")
        || includes message (codes "ssl")
    then tls_error
    else if is_code code "ETIMEDOUT"
        || is_code code "UND_ERR_CONNECT_TIMEOUT"
        || includes message (codes "timeout")
    then timeout
    else unknown

unfoldable pub map_fetch_error : (List ℕ → List ℕ) → FetchError → ValidateFeedUrlErrorCode
unfolding map_thrown
map_fetch_error lower (unsafe unsafe_protocol) = protocol_not_safe
map_fetch_error lower (unsafe unsafe_host) = host_not_safe
map_fetch_error lower (too_many_redirects n) = redirects_exceeded
map_fetch_error lower invalid_redirect = redirect_invalid
map_fetch_error lower (body_too_large n) = response_too_large
map_fetch_error lower (thrown t) = map_thrown lower t

-- The ellipsis is one character.
abbrev pub cut : List ℕ → Option (List ℕ)
cut [] = none
cut (c ∷ cs) =
    if ltb max_echoed_text_length (length (c ∷ cs))
    then some (take max_echoed_text_length (c ∷ cs) ++ 0x2026 ∷ [])
    else some (c ∷ cs)

unfoldable pub truncate : Option (List ℕ) → Option (List ℕ)
truncate none = none
truncate (some value) = cut (trim value)

abbrev pub shown_link : (Url → String) → Option Url → Option String
shown_link href none = none
shown_link href (some url) =
    if str_eq url.protocol "http:" || str_eq url.protocol "https:" then some (href url) else none

unfoldable pub sanitize_item_link : Platform → Option (List ℕ) → Option String
sanitize_item_link p none = none
sanitize_item_link p (some value) =
    let trimmed = trim value in
    if (length trimmed == 0) || ltb validated_link_max_length (length trimmed)
    then none
    else shown_link p.href (p.parse_url trimmed)

abbrev pub published_of : (String → Option String) → Option String → Option String
published_of to_iso_string none = none
published_of to_iso_string (some value) = if str_eq value "" then none else to_iso_string value

-- `normalizePublishedAt(item.isoDate ?? item.pubDate ?? null)`
unfoldable pub item_published_at : Platform → ParsedItem → Option String
item_published_at p item = published_of p.to_iso_string (coalesce item.iso_date item.pub_date)

-- `reduce((a, b) => (a > b ? a : b))` over the dates that are there.
abbrev pub later : String → String → String
later a b = elim (compare a b) [ Ordering.gt ↦ a | _ ↦ b ]

abbrev pub latest_from : Option String → List (Option String) → Option String
latest_from best [] = best
latest_from best (none ∷ dates) = latest_from best dates
latest_from none (some d ∷ dates) = latest_from (some d) dates
latest_from (some best) (some d ∷ dates) = latest_from (some (later best d)) dates

unfoldable pub sample_item : Platform → ParsedItem → ValidatedFeedSampleItem
sample_item p item = record {
  title = truncate item.title;
  link = sanitize_item_link p item.link;
  published_at = item_published_at p item;
}

-- `parseFeed` of what the parser gives.
unfoldable pub parsed_result : Platform → ℕ → ℕ → Option ParsedFeed → ValidateFeedUrlResult
unfolding empty_result
parsed_result p latency_ms status_code none = empty_result parse_error latency_ms (some status_code)
parsed_result p latency_ms status_code (some feed) = record {
  reachable = true;
  status_code = some status_code;
  latency_ms = latency_ms;
  feed_title = truncate feed.title;
  item_count = some (length feed.items);
  latest_item_published_at = latest_from none (map (item_published_at p) feed.items);
  sample_items = map (sample_item p) (take sample_item_count feed.items);
  error = none;
}

-- Behind the read of the body, whose failure is caught.
unfoldable pub body_result : Platform → ℕ → ℕ → FetchError ⊎ List ℕ → ValidateFeedUrlResult
unfolding parsed_result empty_result
body_result p latency_ms status_code (inl e) =
    empty_result (map_fetch_error p.lower e) latency_ms none
body_result p latency_ms status_code (inr body) =
    parsed_result p latency_ms status_code (p.parse_feed body)

-- Behind the fetch, whose failure is caught. The latency is that of the fetch, or up to the failure.
unfoldable pub fetch_result :
    Platform → ℕ → ℕ → FetchError ⊎ SafeFetchResult → ValidateFeedUrlResult
unfolding body_result empty_result
fetch_result p max_bytes latency_ms (inl e) =
    empty_result (map_fetch_error p.lower e) latency_ms none
fetch_result p max_bytes latency_ms (inr r) =
    if not (ltb r.response.status 400)
    then empty_result (http r.response.status) latency_ms (some r.response.status)
    else body_result p latency_ms r.response.status
        (read_body_with_limit p.decoders r.response max_bytes none)

abbrev pub get : RequestInit
get = record { method = none; body = none }

module _ (p : Platform) (network : ℕ → Request → Thrown ⊎ Response)
    (resolve : List ℕ → Url → Option Url) (allow_private_hosts : Bool)
    (max_bytes latency_ms : ℕ) where
  -- Behind the first check, which issues no request.
  unfoldable pub probe : UrlSafetyError ⊎ Url → Option Url → List Request × ValidateFeedUrlResult
  unfolding empty_result fetch_result
  probe (inl unsafe_protocol) url = ([], empty_result protocol_not_safe 0 none)
  probe (inl unsafe_host) url = ([], empty_result host_not_safe 0 none)
  probe (inr checked) url =
      let (requests, fetched) =
        safe_fetch network resolve allow_private_hosts default_max_redirects url get in
      (requests, fetch_result p max_bytes latency_ms fetched)

  -- `execute`: the requests that are issued and the result. It never throws.
  unfoldable pub validate_feed_url : Option Url → List Request × ValidateFeedUrlResult
  unfolding probe
  validate_feed_url url = probe (assert_safe_public_url allow_private_hosts url) url
