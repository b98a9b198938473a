-- ===== src/Feeds/ProbeTests.antt =====
-- Runs of the probe of a url, and an application of each theorem on it.
use feedpulse.Base.{
  ℕ, ◌≤◌, ◌≡◌, refl, true, false, none, some, [], ◌∷◌, ◌⊎◌, inr, if◌then◌else◌, length, All, any,
  arith,
}
use feedpulse.Text.Normalize.{codes}
use feedpulse.Text.Keywords.{strip_prefix}
use feedpulse.Text.Characters.{has_prefix, has_suffix, has_char, split_on}
use feedpulse.Http.UrlSafety.{
  check_url, assert_safe_public_url, is_safe_answer, normalize_hostname, unmap_ipv4,
  is_blocked_hostname, matches_blocked_host, strip_last,
}
use feedpulse.Http.SafeFetch.{Thrown, Response, Request, buffered, is_redirect}
use feedpulse.Http.Charset.{Decoders}
use feedpulse.Http.Tests.{url_of, answer_of, to_host, network}
use feedpulse.Feeds.Validation.{
  Platform, response_too_large, dns_failure, map_thrown, clamp_timeout, validate_feed_url,
}
use feedpulse.Feeds.Probing.{validation_guarded, large_feed_unreachable}

abbrev decoders : Decoders
decoders = record { utf8 = λ b. b; latin1 = λ b. b; labelled = λ l. none }

abbrev platform : Platform
platform = record {
  lower = λ t. t;
  parse_url = λ t. none;
  href = λ u. "";
  to_iso_string = λ t. some t;
  parse_feed = λ b. none;
  decoders = decoders;
}

dns_test :
    map_thrown
      (λ t. t)
      (record {
        is_error = true;
        name = "TypeError";
        message = codes "fetch failed";
        cause_code = some "ENOTFOUND";
      })
    ≡ dns_failure
unfolding map_thrown
dns_test = refl

clamp_test : clamp_timeout (some 20) ≡ 1000
unfolding clamp_timeout
clamp_test = refl

validation_guarded_example :
    All
      (λ r. check_url false r.url ≡ inr r.url)
      (validate_feed_url platform network
        (to_host "a.org")
        false
        3
        40
        (some (url_of "example.org"))).0
    × (length
          (validate_feed_url platform network
            (to_host "a.org")
            false
            3
            40
            (some (url_of "example.org"))).0
        ≤ (if is_safe_answer (assert_safe_public_url false (some (url_of "example.org")))
            then 6
            else 0))
validation_guarded_example =
    validation_guarded platform network (to_host "a.org") false 3 40 (some (url_of "example.org"))

abbrev large : Response
large = record (answer_of 200 none) { body = buffered (1 ∷ 2 ∷ 3 ∷ 4 ∷ []) }

abbrev large_site : ℕ → Request → Thrown ⊎ Response
large_site hop request = inr large

public_host :
    assert_safe_public_url false (some (url_of "example.org")) ≡ inr (url_of "example.org")
unfolding assert_safe_public_url check_url normalize_hostname unmap_ipv4 is_blocked_hostname
    matches_blocked_host strip_last strip_prefix has_prefix has_suffix has_char split_on any
public_host = refl

final_answer : is_redirect 200 ≡ false
unfolding is_redirect
final_answer = refl

large_feed_unreachable_example :
    ((validate_feed_url platform large_site
        (to_host "a.org")
        false
        3
        40
        (some (url_of "example.org"))).1.reachable
      ≡ false)
    × ((validate_feed_url platform large_site
          (to_host "a.org")
          false
          3
          40
          (some (url_of "example.org"))).1.error
        ≡ some response_too_large)
large_feed_unreachable_example =
    large_feed_unreachable platform large_site (to_host "a.org") false 3 40
      (some (url_of "example.org")) (url_of "example.org") large public_host refl final_answer
      (omega arith) refl (omega arith)
