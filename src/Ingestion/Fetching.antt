-- ===== src/Ingestion/Fetching.antt =====
-- What a fetch of a feed does to the network and to the limiter.
use feedpulse.Base.{
  ℕ, ◌≤◌, ◌≡◌, refl, String, Bool, true, Option, List, length, All, ◌⊎◌, inl, inr, arith, ◌==◌,
  if◌then◌else◌,
}
use feedpulse.Http.UrlSafety.{Url, UrlSafetyError, check_url, is_safe_answer}
use feedpulse.Http.SafeFetch.{Thrown, Response, RequestInit, Request, default_max_redirects}
use feedpulse.Http.Charset.{Decoders}
use feedpulse.Http.Redirects.{fetch_guarded}
use feedpulse.Ingestion.RateLimiter.{DomainRateLimiterOptions, Runtime, Limiter, apply_backoff}
use feedpulse.Ingestion.Fetcher.{
  ReadHeaders, rate_limited, is_rate_limited, caught, handle_response, fetch_checked_feed,
}

-- A response that limits the rate is thrown, and the backoff that it asks for is kept by the catch.
limited_keeps_backoff :
    (rt : Runtime) (limits : DomainRateLimiterOptions) (headers : ReadHeaders) (decoders : Decoders)
    (max_bytes duration_ms now : ℕ) (url : String) (response : Response) (final_url : Url)
    (l : Limiter)
    → is_rate_limited response.status (headers.retry_after response) ≡ true
    → caught rt url (
        handle_response rt limits headers decoders max_bytes duration_ms now url response final_url
          l)
      ≡ (
        (apply_backoff rt limits now url
            (headers.retry_after response)
            (response.status == 429)
            l).0,
        inl (rate_limited response.status (headers.retry_after response)),
      )
unfolding handle_response caught
limited_keeps_backoff rt limits headers decoders max_bytes duration_ms now url response final_url l
      h =
    rw h refl

module _ (rt : Runtime) (limits : DomainRateLimiterOptions) (headers : ReadHeaders)
    (decoders : Decoders) (max_bytes duration_ms now : ℕ) (url : String)
    (network : ℕ → Request → Thrown ⊎ Response) (resolve : List ℕ → Url → Option Url) (allow : Bool)
    (sleep : ℕ → ℕ → ℕ) (called : ℕ) (parsed : Option Url) (init : RequestInit) where
  -- A fetch of a feed requests only urls that pass the check, at most six, and none for a url that
  -- does not pass.
  fetch_feed-guarded :
      (checked : UrlSafetyError ⊎ Url) (l : Limiter)
      → All
          (λ r. check_url allow r.url ≡ inr r.url)
          (fetch_checked_feed rt limits headers decoders max_bytes duration_ms now url network
            resolve allow sleep called parsed init checked l).0
        × (length
              (fetch_checked_feed rt limits headers decoders max_bytes duration_ms now url network
                resolve allow sleep called parsed init checked l).0
            ≤ (if is_safe_answer checked then 6 else 0))
  unfolding fetch_checked_feed
  fetch_feed-guarded (inl e) l = (tt, omega arith)
  fetch_feed-guarded (inr u) l =
      let (all, few, _) =
        fetch_guarded network resolve allow default_max_redirects parsed init _ _ refl in
      (all, few)
