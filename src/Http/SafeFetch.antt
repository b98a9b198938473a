-- ===== src/Http/SafeFetch.antt =====
-- shared/http/safe-fetch.ts: the fetch that checks the url of every hop. The network is an argument:
-- what it answers to a request at a hop, or the error that it throws; `resolve` is
-- `new URL(location, base)`, whose failure is `none`.
use feedpulse.Base.{
  ℕ, suc, zero, ◌+◌, Bool, true, false, not, ◌&&◌, ◌||◌, Option, none, some, List, [], ◌∷◌, String,
  str_eq, ◌==◌, if◌then◌else◌, ◌⊎◌, inl, inr, or_else,
}
use feedpulse.Text.Normalize.{trim}
use feedpulse.Http.UrlSafety.{Url, UrlSafetyError, check_url, assert_safe_public_url}

-- What the platform throws: `instanceof Error`, its name and message, and the code of its cause.
pub record Thrown : Type 0 where
  pub is_error : Bool
  pub name : String
  pub message : List ℕ
  pub cause_code : Option String

pub data FetchError : Type 0 where
  unsafe : UrlSafetyError → FetchError
  too_many_redirects : ℕ → FetchError
  invalid_redirect : FetchError
  body_too_large : ℕ → FetchError
  thrown : Thrown → FetchError

-- One answer of `reader.read()`: a chunk, no value, or a rejection. The stream ends with the list.
pub data Read : Type 0 where
  chunk : List ℕ → Read
  no_value : Read
  rejected : Thrown → Read

pub data Body : Type 0 where
  buffered : List ℕ → Body
  stream : List Read → Body

pub record Response : Type 0 where
  pub status : ℕ
  pub location : Option (List ℕ)
  -- `Number.parseInt` of the header, where that is finite.
  pub content_length : Option ℕ
  pub content_type : Option (List ℕ)
  pub body : Body

pub record RequestInit : Type 0 where
  -- In upper case; none is GET.
  pub method : Option String
  pub body : Option (List ℕ)

pub record Request : Type 0 where
  pub url : Url
  pub init : RequestInit

pub record SafeFetchResult : Type 0 where
  pub response : Response
  pub final_url : Url
  pub redirect_count : ℕ

abbrev pub default_max_redirects : ℕ
default_max_redirects = 5

-- `REDIRECT_STATUSES.has(status)`
unfoldable pub is_redirect : ℕ → Bool
is_redirect status =
    (status == 301) || (status == 302) || (status == 303) || (status == 307) || (status == 308)

unfoldable pub downgrade_after_redirect : RequestInit → ℕ → RequestInit
downgrade_after_redirect init status =
    if (status == 303)
      || (((status == 301) || (status == 302)) && str_eq (or_else init.method "GET") "POST")
    then record { method = some "GET"; body = none }
    else init

-- The url of the next hop, which is checked before it is requested.
abbrev pub checked_target : UrlSafetyError ⊎ Url → FetchError ⊎ Url
checked_target (inl e) = inl (unsafe e)
checked_target (inr url) = inr url

unfoldable pub resolved_target : Bool → Option Url → FetchError ⊎ Url
resolved_target allow none = inl invalid_redirect
resolved_target allow (some target) = checked_target (check_url allow target)

abbrev pub is_blank : List ℕ → Bool
is_blank [] = true
is_blank _ = false

-- `!location || !location.trim()` and the resolution against the current url.
unfoldable pub redirect_target :
    (List ℕ → Url → Option Url) → Bool → Url → Option (List ℕ) → FetchError ⊎ Url
unfolding resolved_target
redirect_target resolve allow current none = inl invalid_redirect
redirect_target resolve allow current (some location) =
    if is_blank (trim location)
    then inl invalid_redirect
    else resolved_target allow (resolve location current)

-- What one round of the loop does with the answer of the network.
pub data Hop : Type 0 where
  answered : Response → Hop
  failed : FetchError → Hop
  redirected : Url → RequestInit → Hop

unfoldable pub after_target : RequestInit → ℕ → FetchError ⊎ Url → Hop
unfolding downgrade_after_redirect
after_target init status (inl e) = failed e
after_target init status (inr url) = redirected url (downgrade_after_redirect init status)

unfoldable pub hop_of : (List ℕ → Url → Option Url) → Bool → Request → Thrown ⊎ Response → Hop
unfolding is_redirect redirect_target after_target
hop_of resolve allow request (inl t) = failed (thrown t)
hop_of resolve allow request (inr response) =
    if not (is_redirect response.status)
    then answered response
    else after_target request.init response.status
        (redirect_target resolve allow request.url response.location)

-- The end of a round: the next round is given as a function of the next request.
abbrev pub after_hop :
    (Request → List Request × (FetchError ⊎ SafeFetchResult))
    → ℕ
    → Request
    → Hop
    → List Request × (FetchError ⊎ SafeFetchResult)
after_hop next hop request (answered response) = (
  request ∷ [],
  inr (record { response = response; final_url = request.url; redirect_count = hop }),
)
after_hop next hop request (failed e) = (request ∷ [], inl e)
after_hop next hop request (redirected url init) =
    let (requests, result) = next (record { url = url; init = init }) in
    (request ∷ requests, result)

module _ (network : ℕ → Request → Thrown ⊎ Response) (resolve : List ℕ → Url → Option Url)
    (allow_private_hosts : Bool) (max_redirects : ℕ) where
  -- The loop over the hops: with how many rounds are left, the requests that it issues and its result.
  unfoldable pub fetch_hops : ℕ → ℕ → Request → List Request × (FetchError ⊎ SafeFetchResult)
  fetch_hops zero hop request = ([], inl (too_many_redirects max_redirects))
  fetch_hops (suc rounds) hop request =
      after_hop (λ r. fetch_hops rounds (hop + 1) r) hop request
        (hop_of resolve allow_private_hosts request (network hop request))

  unfoldable pub fetch_checked :
      RequestInit → UrlSafetyError ⊎ Url → List Request × (FetchError ⊎ SafeFetchResult)
  fetch_checked init (inl e) = ([], inl (unsafe e))
  fetch_checked init (inr url) =
      fetch_hops (suc max_redirects) 0 (record { url = url; init = init })

  -- `safeFetch`: the requests that are issued, in order, and what is returned or thrown.
  unfoldable pub safe_fetch :
      Option Url → RequestInit → List Request × (FetchError ⊎ SafeFetchResult)
  unfolding fetch_checked
  safe_fetch url init = fetch_checked init (assert_safe_public_url allow_private_hosts url)
