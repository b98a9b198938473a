-- ===== src/Http/Tests.antt =====
-- Runs of the url check, the guarded fetch and the limited body, and an application of each theorem.
use feedpulse.Base.{
  ℕ, ◌+◌, ◌≤◌, ◌/◌, ◌%◌, ◌≡◌, refl, true, false, Option, none, some, List, [], ◌∷◌, ◌==◌, String,
  ◌⊎◌, inl, inr, All, if◌then◌else◌, any, arith,
}
use feedpulse.Text.Normalize.{codes, trim}
use feedpulse.Text.Keywords.{strip_prefix}
use feedpulse.Text.Characters.{has_suffix, has_char, split_on, print_byte, parse_hex_from}
use feedpulse.Http.UrlSafety.{
  Url, unsafe_host, matches_blocked_host, is_blocked_hostname, is_hex_group, strip_last,
  normalize_hostname, unmap_ipv4, unmap_groups, dotted_quad, check_url, assert_safe_public_url,
}
use feedpulse.Http.SafeFetch.{
  Thrown, unsafe, body_too_large, buffered, stream, chunk, no_value, Response, RequestInit, Request,
  is_redirect, downgrade_after_redirect, redirect_target, resolved_target, after_target, hop_of,
  fetch_hops, fetch_checked, safe_fetch,
}
use feedpulse.Http.Body.{within_budget, concat, read_chunks, read_body_bytes, read_bytes_with_limit}
use feedpulse.Http.Redirects.{FitsResult, fetch_guarded}
use feedpulse.Http.Limits.{limited, payload, read_bytes_limited}
use feedpulse.Http.Quads.{quad}
use feedpulse.Http.BlockedHosts.{is_internal_address, blocked_ipv4_iff}
use feedpulse.Http.MappedHosts.{mapped_host, blocked_mapped_iff}

blocked_ipv4_iff_example : is_blocked_hostname (quad 172 20 0 1) ≡ is_internal_address 172 20
blocked_ipv4_iff_example =
    blocked_ipv4_iff 172 20 0 1 (omega arith) (omega arith) (omega arith) (omega arith)

blocked_test : is_blocked_hostname (codes "172.20.0.1") ≡ true
unfolding is_blocked_hostname matches_blocked_host
blocked_test = refl

public_test : is_blocked_hostname (codes "93.184.216.34") ≡ false
unfolding is_blocked_hostname matches_blocked_host strip_last has_suffix has_char any
public_test = refl

-- 127.0.0.1 as a mapped address.
mapped_test : normalize_hostname (codes "[::FFFF:7f00:1]") ≡ codes "127.0.0.1"
unfolding normalize_hostname unmap_ipv4 unmap_groups dotted_quad strip_last strip_prefix has_char
    split_on parse_hex_from print_byte any
mapped_test = refl

high_group : is_hex_group (codes "7f00") ≡ true
unfolding any
high_group = refl

low_group : is_hex_group (codes "1") ≡ true
unfolding any
low_group = refl

blocked_mapped_iff_example :
    is_blocked_hostname (normalize_hostname (mapped_host (codes "7f00") (codes "1")))
    ≡ is_internal_address
        (parse_hex_from 0 (codes "7f00") / 256)
        (parse_hex_from 0 (codes "7f00") % 256)
blocked_mapped_iff_example = blocked_mapped_iff (codes "7f00") (codes "1") high_group low_group

abbrev pub url_of : String → Url
url_of host = record {
  protocol = "https:";
  hostname = codes host;
  port = "";
  pathname = codes "/";
  hash = "";
  others = "";
}

abbrev pub answer_of : ℕ → Option (List ℕ) → Response
answer_of status location = record {
  status = status;
  location = location;
  content_length = none;
  content_type = none;
  body = buffered [];
}

-- The first host sends on to an internal one, any other answers.
abbrev pub network : ℕ → Request → Thrown ⊎ Response
network hop request =
    if hop == 0 then inr (answer_of 302 (some (codes "/"))) else inr (answer_of 200 none)

abbrev pub to_host : String → List ℕ → Url → Option Url
to_host host location base = some (url_of host)

abbrev get : RequestInit
get = record { method = none; body = none }

abbrev first_request : Request
first_request = record { url = url_of "example.org"; init = get }

-- The redirect to the metadata service is not followed.
redirect_test :
    safe_fetch network (to_host "169.254.169.254") false 5 (some (url_of "example.org")) get
    ≡ (first_request ∷ [], inl (unsafe unsafe_host))
unfolding safe_fetch fetch_checked fetch_hops hop_of is_redirect redirect_target resolved_target
    after_target downgrade_after_redirect check_url assert_safe_public_url normalize_hostname
    unmap_ipv4 is_blocked_hostname matches_blocked_host strip_last strip_prefix trim has_suffix
    has_char any
redirect_test = refl

fetch_guarded_example :
    All (λ r. check_url false r.url ≡ inr r.url) (first_request ∷ [])
    × (1 ≤ 5 + 1)
    × FitsResult false 0 (first_request ∷ []) (inl (unsafe unsafe_host))
fetch_guarded_example =
    fetch_guarded network (to_host "169.254.169.254") false 5 (some (url_of "example.org")) get
      (first_request ∷ []) (inl (unsafe unsafe_host)) redirect_test

abbrev streamed : Response
streamed = record (answer_of 200 none) {
  body = stream (chunk (1 ∷ 2 ∷ []) ∷ no_value ∷ chunk (3 ∷ []) ∷ []);
}

read_test : read_bytes_with_limit 3 streamed ≡ inr (1 ∷ 2 ∷ 3 ∷ [])
unfolding read_bytes_with_limit within_budget read_body_bytes read_chunks concat
read_test = refl

read_too_large_test : read_bytes_with_limit 2 streamed ≡ inl (body_too_large 2)
unfolding read_bytes_with_limit within_budget read_body_bytes read_chunks concat
read_too_large_test = refl

read_bytes_limited_example : read_bytes_with_limit 2 streamed ≡ (
    if within_budget 2 streamed.content_length
    then limited 2 (payload streamed.body)
    else inl (body_too_large 2))
read_bytes_limited_example = read_bytes_limited 2 streamed refl
