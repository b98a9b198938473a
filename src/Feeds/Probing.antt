-- ===== src/Feeds/Probing.antt =====
-- What a probe of a url requests and reports.
use feedpulse.Base.{
  ℕ, ◌≤◌, ◌<◌, ◌≡◌, refl, ap, ◌∙◌, Bool, true, false, Option, none, some, List, [], ◌∷◌, ltb, ◌⊎◌,
  inl, inr, if◌then◌else◌, length, All, Bool-cases, arith,
}
use feedpulse.Http.UrlSafety.{
  Url, UrlSafetyError, unsafe_protocol, unsafe_host, check_url, assert_safe_public_url,
  is_safe_answer,
}
use feedpulse.Http.SafeFetch.{
  Thrown, body_too_large, Response, RequestInit, Request, is_redirect, hop_of, fetch_hops,
  safe_fetch, default_max_redirects,
}
use feedpulse.Http.Redirects.{fetch_guarded}
use feedpulse.Http.Body.{within_budget, read_bytes_with_limit}
use feedpulse.Http.Limits.{arrives, payload, read_bytes_limited}
use feedpulse.Http.Charset.{decode_read, read_body_with_limit}
use feedpulse.Feeds.Validation.{
  Platform, response_too_large, get, empty_result, fetch_result, body_result, map_fetch_error,
  probe, validate_feed_url,
}

-- An answer to the first request that is no redirect is what the fetch returns.
direct_fetch :
    (network : ℕ → Request → Thrown ⊎ Response) (resolve : List ℕ → Url → Option Url) (allow : Bool)
    (max_redirects : ℕ) (url : Option Url) (u : Url) (init : RequestInit) (response : Response)
    → assert_safe_public_url allow url ≡ inr u
    → network 0 (record { url = u; init = init }) ≡ inr response
    → is_redirect response.status ≡ false
    → safe_fetch network resolve allow max_redirects url init ≡ (
      record { url = u; init = init } ∷ [],
      inr (record { response = response; final_url = u; redirect_count = 0 }),
    )
unfolding safe_fetch fetch_hops hop_of
direct_fetch network resolve allow max_redirects url u init response safe answer final =
    rw safe (rw answer (rw final refl))

-- A body beyond the limit is not read, whether or not its length is declared.
read_too_large :
    (p : Platform) (max_bytes : ℕ) (response : Response)
    → arrives response.body ≡ true
    → max_bytes < length (payload response.body)
    → read_body_with_limit p.decoders response max_bytes none ≡ inl (body_too_large max_bytes)
unfolding read_body_with_limit
read_too_large p max_bytes response whole large =
    let above : ltb max_bytes (length (payload response.body)) ≡ true = ground arith in
    let cut : read_bytes_with_limit max_bytes response ≡ inl (body_too_large max_bytes) =
      read_bytes_limited max_bytes response whole
      ∙ elim (Bool-cases (within_budget max_bytes response.content_length)) [
        | inl e ↦ rw (e, above) refl
        | inr e ↦ rw e refl
      ] in
    ap (decode_read p.decoders none response) cut

module _ (p : Platform) (network : ℕ → Request → Thrown ⊎ Response)
    (resolve : List ℕ → Url → Option Url) (allow : Bool) (max_bytes latency_ms : ℕ) where
  probe-guarded :
      (checked : UrlSafetyError ⊎ Url) (url : Option Url)
      → All
          (λ r. check_url allow r.url ≡ inr r.url)
          (probe p network resolve allow max_bytes latency_ms checked url).0
        × (length (probe p network resolve allow max_bytes latency_ms checked url).0
            ≤ (if is_safe_answer checked then 6 else 0))
  unfolding probe
  probe-guarded (inl unsafe_protocol) url = (tt, omega arith)
  probe-guarded (inl unsafe_host) url = (tt, omega arith)
  probe-guarded (inr u) url =
      let (all, few, _) =
        fetch_guarded network resolve allow default_max_redirects url get _ _ refl in
      (all, few)

  -- A probe requests only urls that pass the check of protocol and host, and at most six, whatever
  -- the network answers; of a url that does not pass, it requests nothing.
  pub validation_guarded :
      (url : Option Url)
      → All
          (λ r. check_url allow r.url ≡ inr r.url)
          (validate_feed_url p network resolve allow max_bytes latency_ms url).0
        × (length (validate_feed_url p network resolve allow max_bytes latency_ms url).0
            ≤ (if is_safe_answer (assert_safe_public_url allow url) then 6 else 0))
  unfolding validate_feed_url
  validation_guarded url = probe-guarded (assert_safe_public_url allow url) url

  large_result :
      (u : Url) (response : Response)
      → response.status < 400
      → read_body_with_limit p.decoders response max_bytes none ≡ inl (body_too_large max_bytes)
      → fetch_result p max_bytes latency_ms
          (inr (record { response = response; final_url = u; redirect_count = 0 }))
        ≡ empty_result response_too_large latency_ms none
  unfolding fetch_result body_result map_fetch_error
  large_result u response low cut =
      let below : ltb response.status 400 ≡ true = ground arith in rw (below, cut) refl

  -- A url that passes the check and answers at once, below 400 and with a body that arrives but is
  -- larger than the limit, is reported as unreachable, with the error that its response is too large.
  pub large_feed_unreachable :
      (url : Option Url) (u : Url) (response : Response)
      → assert_safe_public_url allow url ≡ inr u
      → network 0 (record { url = u; init = get }) ≡ inr response
      → is_redirect response.status ≡ false
      → response.status < 400
      → arrives response.body ≡ true
      → max_bytes < length (payload response.body)
      → ((validate_feed_url p network resolve allow max_bytes latency_ms url).1.reachable ≡ false)
        × ((validate_feed_url p network resolve allow max_bytes latency_ms url).1.error
            ≡ some response_too_large)
  unfolding validate_feed_url
  large_feed_unreachable url u response safe answer final low whole large =
      let fetched =
        direct_fetch network resolve allow default_max_redirects url u get response safe answer
          final in
      let cut = read_too_large p max_bytes response whole large in
      rw safe (
        unfold probe in
        rw fetched (rw (large_result u response low cut) (unfold empty_result in (refl, refl))))
