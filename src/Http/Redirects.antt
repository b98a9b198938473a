-- ===== src/Http/Redirects.antt =====
-- What `safeFetch` guarantees of the requests that it issues, whatever the network answers.
use feedpulse.Base.{
  ℕ, suc, zero, ◌+◌, ◌≤◌, ◌≡◌, refl, ap, ◌∙◌, Bool, false, Option, none, some, List, ◌∷◌, ◌⊎◌, inl,
  inr, length, All, subst, Bool-cases, arith,
}
use feedpulse.Text.Normalize.{trim}
use feedpulse.Http.UrlSafety.{Url, UrlSafetyError, check_url, assert_safe_public_url}
use feedpulse.Http.SafeFetch.{
  Thrown, FetchError, Response, RequestInit, Request, SafeFetchResult, is_redirect, redirect_target,
  resolved_target, is_blank, checked_target, Hop, answered, failed, redirected, after_target,
  hop_of, after_hop, fetch_hops, fetch_checked, safe_fetch,
}

-- The check passes the url, and gives it back as it is.
abbrev pub IsSafeUrl : Bool → Url → Type 0
IsSafeUrl allow url = check_url allow url ≡ inr url

check_url-eq : (allow : Bool) (url : Url) {u : Url} → check_url allow url ≡ inr u → u ≡ url
unfolding check_url
check_url-eq allow url h = ground arith

check_url-IsSafeUrl :
    (allow : Bool) (url : Url) {u : Url} → check_url allow url ≡ inr u → IsSafeUrl allow u
check_url-IsSafeUrl allow url {u} h =
    let same : u ≡ url = check_url-eq allow url h in rw same (h ∙ ap inr same)

assert-IsSafeUrl :
    (allow : Bool) (url : Option Url) {u : Url}
    → assert_safe_public_url allow url ≡ inr u
    → IsSafeUrl allow u
unfolding assert_safe_public_url
assert-IsSafeUrl allow none h = cc
assert-IsSafeUrl allow (some url) h = check_url-IsSafeUrl allow url h

-- What a round gives: an answer that is no redirect, or a next url that passed the check.
abbrev HopIsSafe : Bool → Hop → Type 0
HopIsSafe allow (answered response) = is_redirect response.status ≡ false
HopIsSafe allow (failed e) = Unit {0}
HopIsSafe allow (redirected url init) = IsSafeUrl allow url

after_target-IsSafe :
    (allow : Bool) (init : RequestInit) (status : ℕ) (target : FetchError ⊎ Url)
    → ((u : Url) → target ≡ inr u → IsSafeUrl allow u)
    → HopIsSafe allow (after_target init status target)
unfolding after_target
after_target-IsSafe allow init status (inl e) h = tt
after_target-IsSafe allow init status (inr url) h = h url refl

checked_target-eq :
    (answer : UrlSafetyError ⊎ Url) (u : Url) → checked_target answer ≡ inr u → answer ≡ inr u
checked_target-eq (inl e) u h = cc
checked_target-eq (inr v) u h = cc

resolved-IsSafe :
    (allow : Bool) (target : Option Url) (u : Url)
    → resolved_target allow target ≡ inr u
    → IsSafeUrl allow u
unfolding resolved_target
resolved-IsSafe allow none u h = cc
resolved-IsSafe allow (some target) u h =
    check_url-IsSafeUrl allow target (checked_target-eq (check_url allow target) u h)

target-IsSafe :
    (resolve : List ℕ → Url → Option Url) (allow : Bool) (current : Url)
    (location : Option (List ℕ)) (u : Url)
    → redirect_target resolve allow current location ≡ inr u
    → IsSafeUrl allow u
unfolding redirect_target
target-IsSafe resolve allow current none u h = cc
target-IsSafe resolve allow current (some location) u h =
    elim (Bool-cases (is_blank (trim location))) [
      | inl e ↦ cc (rw e at h)
      | inr e ↦ resolved-IsSafe allow (resolve location current) u (rw e at h)
    ]

hop-IsSafe :
    (resolve : List ℕ → Url → Option Url) (allow : Bool) (request : Request)
    (answer : Thrown ⊎ Response)
    → HopIsSafe allow (hop_of resolve allow request answer)
unfolding hop_of
hop-IsSafe resolve allow request (inl t) = tt
hop-IsSafe resolve allow request (inr response) = elim (Bool-cases (is_redirect response.status)) [
  | inr e ↦ rw e e
  | inl e ↦ rw e (
      after_target-IsSafe allow request.init response.status _
        (target-IsSafe resolve allow request.url response.location))
]

-- The result fits the requests: it is the answer to the last of them and no redirect.
abbrev pub FitsResult : Bool → ℕ → List Request → FetchError ⊎ SafeFetchResult → Type 0
FitsResult allow hop requests (inl e) = Unit {0}
FitsResult allow hop requests (inr r) =
    (is_redirect r.response.status ≡ false)
    × (r.redirect_count + 1 ≡ hop + length requests)
    × IsSafeUrl allow r.final_url

abbrev Guarded : Bool → ℕ → ℕ → List Request × (FetchError ⊎ SafeFetchResult) → Type 0
Guarded allow rounds hop (requests, result) =
    All (λ r. IsSafeUrl allow r.url) requests
    × (length requests ≤ rounds)
    × FitsResult allow hop requests result

FitsResult-cons :
    (allow : Bool) (hop : ℕ) (request : Request) (requests : List Request)
    (result : FetchError ⊎ SafeFetchResult)
    → FitsResult allow (hop + 1) requests result
    → FitsResult allow hop (request ∷ requests) result
FitsResult-cons allow hop request requests (inl e) h = tt
FitsResult-cons allow hop request requests (inr r) h = (h.0, omega (arith, h.1), h.2)

after_hop-Guarded :
    (allow : Bool) (rounds hop : ℕ) (next : Request → List Request × (FetchError ⊎ SafeFetchResult))
    (request : Request) (h : Hop)
    → ((r : Request) → IsSafeUrl allow r.url → Guarded allow rounds (hop + 1) (next r))
    → IsSafeUrl allow request.url
    → HopIsSafe allow h
    → Guarded allow (suc rounds) hop (after_hop next hop request h)
after_hop-Guarded allow rounds hop next request (answered response) ih safe ok =
    ((safe, tt), omega arith, (ok, omega arith, safe))
after_hop-Guarded allow rounds hop next request (failed e) ih safe ok =
    ((safe, tt), omega arith, tt)
after_hop-Guarded allow rounds hop next request (redirected url init) ih safe ok =
    let target : Request = record { url = url; init = init } in
    let (all, few, fits) = ih target ok in
    (
      (safe, all),
      omega (arith, few),
      FitsResult-cons allow hop request (next target).0 (next target).1 fits,
    )

module _ (network : ℕ → Request → Thrown ⊎ Response) (resolve : List ℕ → Url → Option Url)
    (allow : Bool) (max_redirects : ℕ) where
  fetch_hops-Guarded :
      (rounds hop : ℕ) (request : Request)
      → IsSafeUrl allow request.url
      → Guarded allow rounds hop (fetch_hops network resolve allow max_redirects rounds hop request)
  unfolding fetch_hops
  fetch_hops-Guarded zero hop request safe = (tt, omega arith, tt)
  fetch_hops-Guarded (suc rounds) hop request safe =
      after_hop-Guarded allow rounds hop _ request _
        (λ r ok. fetch_hops-Guarded rounds (hop + 1) r ok) safe
        (hop-IsSafe resolve allow request (network hop request))

fetch_checked-Guarded :
    (network : ℕ → Request → Thrown ⊎ Response) (resolve : List ℕ → Url → Option Url) (allow : Bool)
    (max_redirects : ℕ) (init : RequestInit) (checked : UrlSafetyError ⊎ Url)
    → ((u : Url) → checked ≡ inr u → IsSafeUrl allow u)
    → Guarded allow
        (suc max_redirects)
        0
        (fetch_checked network resolve allow max_redirects init checked)
unfolding fetch_checked
fetch_checked-Guarded network resolve allow max_redirects init (inl e) h = (tt, omega arith, tt)
fetch_checked-Guarded network resolve allow max_redirects init (inr url) h =
    fetch_hops-Guarded network resolve allow max_redirects (suc max_redirects) 0
      (record { url = url; init = init }) (h url refl)

-- Whatever the network answers, and wherever its redirects point: the guarded fetch requests only urls
-- that pass the check of protocol and host, the first one included; it issues at most one request more
-- than the redirects that are allowed; and what it returns is no redirect, from a url that passes the
-- check, with as many redirects counted as there were requests before the last.
pub fetch_guarded :
    (network : ℕ → Request → Thrown ⊎ Response) (resolve : List ℕ → Url → Option Url) (allow : Bool)
    (max_redirects : ℕ) (url : Option Url) (init : RequestInit) (requests : List Request)
    (result : FetchError ⊎ SafeFetchResult)
    → safe_fetch network resolve allow max_redirects url init ≡ (requests, result)
    → All (λ r. check_url allow r.url ≡ inr r.url) requests
      × (length requests ≤ max_redirects + 1)
      × FitsResult allow 0 requests result
unfolding safe_fetch
fetch_guarded network resolve allow max_redirects url init requests result e =
    let (all, few, fits) = subst (Guarded allow (suc max_redirects) 0) e (
      fetch_checked-Guarded network resolve allow max_redirects init
        (assert_safe_public_url allow url) (λ u h. assert-IsSafeUrl allow url h)) in
    (all, omega (arith, few), fits)
