-- ===== src/Ingestion/Fetcher.antt =====
-- `HttpFeedFetcher` of modules/ingestion/infrastructure/http-feed.fetcher.ts: a feed is fetched through the
-- guarded fetch, behind the limiter of its domain. The headers of a response are read by functions.
use feedpulse.Base.{
  ℕ, ◌+◌, ◌-◌, ◌/◌, String, str_eq, Bool, true, false, ◌&&◌, ◌||◌, Option, none, some, List, [],
  ◌==◌, if◌then◌else◌, ◌⊎◌, inl, inr,
}
use feedpulse.Notifications.Counter.{ℤ, pos, negsuc}
use feedpulse.Http.UrlSafety.{Url, UrlSafetyError, assert_safe_public_url}
use feedpulse.Http.SafeFetch.{
  Thrown, FetchError, unsafe, thrown, Response, RequestInit, Request, SafeFetchResult,
  default_max_redirects, safe_fetch,
}
use feedpulse.Http.Charset.{Decoders, read_body_with_limit}
use feedpulse.Ingestion.RateLimiter.{
  DomainRateLimiterOptions, Runtime, Limiter, apply_backoff, clear_backoff, wait_for_slot,
}

pub record ReadHeaders : Type 0 where
  pub retry_after : Response → Option String
  pub etag : Response → Option String
  pub last_modified : Response → Option String

pub record FeedFetchResult : Type 0 where
  pub status_code : ℕ
  pub body : List ℕ
  pub etag : Option String
  pub last_modified : Option String
  pub duration_ms : ℕ
  pub final_url : Url
  pub retry_after_seconds : Option ℕ

-- What `fetch` throws: an error of the guarded fetch or of the read, or that the origin limits the rate.
pub data FetcherError : Type 0 where
  fetch_error : FetchError → FetcherError
  rate_limited : ℕ → Option String → FetcherError

abbrev pub seconds_until : ℕ → Option ℕ → Option ℕ
seconds_until now none = none
seconds_until now (some retry_at) = some ((retry_at - now + 999) / 1000)

abbrev pub seconds_of_header : Runtime → ℕ → String → Option ℤ → Option ℕ
seconds_of_header rt now header (some (pos n)) = some n
seconds_of_header rt now header (some (negsuc n)) = some 0
seconds_of_header rt now header none = seconds_until now (rt.parse_date header)

unfoldable pub to_retry_after_seconds : Runtime → ℕ → Option String → Option ℕ
to_retry_after_seconds rt now none = none
to_retry_after_seconds rt now (some header) = seconds_of_header rt now header (rt.parse_int header)

abbrev pub is_given : Option String → Bool
is_given none = false
is_given (some header) = true

-- 429 always, 503 when the origin says when to come back.
unfoldable pub is_rate_limited : ℕ → Option String → Bool
is_rate_limited status retry_after =
    (status == 429) || (((status == 429) || (status == 503)) && is_given retry_after)

abbrev pub is_abort : FetcherError → Bool
is_abort (fetch_error (thrown t)) = t.is_error && str_eq t.name "AbortError"
is_abort _ = false

-- The catch: an aborted fetch clears the backoff of the domain, and every error goes on.
unfoldable pub caught :
    Runtime
    → String
    → Limiter × (FetcherError ⊎ FeedFetchResult)
    → Limiter × (FetcherError ⊎ FeedFetchResult)
caught rt url (l, inr result) = (l, inr result)
caught rt url (l, inl e) = ((if is_abort e then clear_backoff rt url l else l), inl e)

module _ (rt : Runtime) (limits : DomainRateLimiterOptions) (headers : ReadHeaders)
    (decoders : Decoders) (max_bytes duration_ms now : ℕ) (url : String) where
  abbrev pub with_body : Response → Url → FetchError ⊎ List ℕ → FetcherError ⊎ FeedFetchResult
  with_body response final_url (inl e) = inl (fetch_error e)
  with_body response final_url (inr body) = inr (record {
    status_code = response.status;
    body = body;
    etag = headers.etag response;
    last_modified = headers.last_modified response;
    duration_ms = duration_ms;
    final_url = final_url;
    retry_after_seconds = to_retry_after_seconds rt now (headers.retry_after response);
  })

  unfoldable pub handle_response :
      Response → Url → Limiter → Limiter × (FetcherError ⊎ FeedFetchResult)
  handle_response response final_url l =
      let retry_after = headers.retry_after response in
      if is_rate_limited response.status retry_after
      then (
        (apply_backoff rt limits now url retry_after (response.status == 429) l).0,
        inl (rate_limited response.status retry_after),
      )
      else (
        l,
        with_body response final_url (
            if response.status == 304
            then inr []
            else read_body_with_limit decoders response max_bytes none),
      )

  unfoldable pub handle_fetched :
      FetchError ⊎ SafeFetchResult → Limiter → Limiter × (FetcherError ⊎ FeedFetchResult)
  handle_fetched (inl e) l = caught rt url (l, inl (fetch_error e))
  handle_fetched (inr r) l = caught rt url (handle_response r.response r.final_url l)

module _ (rt : Runtime) (limits : DomainRateLimiterOptions) (headers : ReadHeaders)
    (decoders : Decoders) (max_bytes duration_ms now : ℕ) (url : String)
    (network : ℕ → Request → Thrown ⊎ Response) (resolve : List ℕ → Url → Option Url) (allow : Bool)
    (sleep : ℕ → ℕ → ℕ) (called : ℕ) (parsed : Option Url) (init : RequestInit) where
  -- The requests that are issued, the limiter afterwards, and what is returned or thrown. A url that
  -- does not pass the check is refused before the limiter is asked.
  unfoldable pub fetch_checked_feed :
      UrlSafetyError ⊎ Url → Limiter → List Request × (Limiter × (FetcherError ⊎ FeedFetchResult))
  fetch_checked_feed (inl e) l = ([], (l, inl (fetch_error (unsafe e))))
  fetch_checked_feed (inr u) l =
      let (requests, fetched) =
        safe_fetch network resolve allow default_max_redirects parsed init in
      (
        requests,
        handle_fetched rt limits headers decoders max_bytes duration_ms now url fetched
            (wait_for_slot rt limits sleep called url l).limiter,
      )

  unfoldable pub fetch_feed : Limiter → List Request × (Limiter × (FetcherError ⊎ FeedFetchResult))
  unfolding fetch_checked_feed
  fetch_feed l = fetch_checked_feed (assert_safe_public_url allow parsed) l
